-- ===== src/Config/Founding.antt =====
-- config/found.go: founding an archive at launch. The sequencer, the readers of a public key and the
-- rule for a branch's name are a parameter; an archive's world is what founding changes.
use ranke_db.Base.{Bool, not, Option, none, some, Text, text, Result, ok, err, if◌then◌else◌}
use ranke_db.Config.{Value, Fields}
use ranke_db.Config.Secrets.{VaultPort, Box, ResolveError}
use ranke_db.Config.Sections.{has_leaf, get_section, get_value}

pub record ArchivePort : Type 1 where
  pub World : Type 0
  pub ClaimId : Type 0
  pub PublicKey : Type 0
  pub Failure : Type 0
  -- the sequencer: whether its archive is yet to be founded, `Found`, the head of `GetArchive`
  pub in_genesis : World → Bool
  pub found : World → Text → Text → Result Failure ClaimId × World
  pub head : World → Result Failure ClaimId
  pub bookmark : World → ClaimId
  -- `ValidateBranchName`, `pem.Decode`, `x509.ParsePKIXPublicKey`, `EncodePublicKey`
  pub branch_fault : Text → Option Failure
  pub pem_block : Text → Option Text
  pub parse_key : Text → Result Failure PublicKey
  pub encode_key : PublicKey → Result Failure Text
  -- the JSON text of a value that is no string
  pub json_text : Value → Text

module _ (V : VaultPort) (A : ArchivePort) where
  open A use {World, ClaimId, Failure}

  pub data FoundError : Type 0 where
    no_first_contributor no_branch no_pem_block : FoundError
    no_sequencer already_founded : FoundError
    unresolved : ResolveError V → FoundError
    failed : Failure → FoundError

  -- `Founding`
  pub record Founding : Type 0 where
    pub first_contributor : ClaimId
    pub head : ClaimId
    pub bookmark : ClaimId
    pub branch : Text

  -- what a launch has: the box of secrets and the archive's world
  pub record Launch : Type 0 where
    pub box : Box V
    pub archive : World

  abbrev pub lifted : {B : Type 0} → Result Failure B → Result FoundError B
  lifted (ok b) = ok b
  lifted (err e) = err (failed e)

  -- the end of `encodePubkey`
  abbrev pub encode_parsed : Result Failure A.PublicKey → Result FoundError Text
  encode_parsed (err e) = err (failed e)
  encode_parsed (ok key) = lifted (A.encode_key key)

  -- `encodePubkey`
  unfoldable pub encode_pubkey : Text → Result FoundError Text
  encode_pubkey pem = elim (A.pem_block pem) [
    | none ↦ err no_pem_block
    | some block ↦ encode_parsed (A.parse_key block)
  ]

  -- what `foundWith` reports of a founded archive
  abbrev pub founded : Text → Result Failure ClaimId × World → Result FoundError Founding × World
  founded branch (err e, w) = (err (failed e), w)
  founded branch (ok first, w) = elim (A.head w) [
    | err e ↦ (err (failed e), w)
    | ok head ↦ (
      ok (record {
        first_contributor = first;
        head = head;
        bookmark = A.bookmark w;
        branch = branch;
      }),
      w,
    )
  ]

  -- `foundWith`
  unfoldable pub found_with : Text → Text → World → Result FoundError Founding × World
  unfolding encode_pubkey
  found_with pem branch w = elim (encode_pubkey pem) [
    | err e ↦ (err e, w)
    | ok pubkey ↦ founded branch (A.found w pubkey branch)
  ]

  -- the check of a branch that was read
  abbrev pub checked_branch : Result (ResolveError V) Text × Box V → Result FoundError Text × Box V
  checked_branch (err e, b) = (err (unresolved e), b)
  checked_branch (ok branch, b) = elim (A.branch_fault branch) [
    | some e ↦ (err (failed e), b)
    | none ↦ (ok branch, b)
  ]

  -- `foundingBranch`
  unfoldable pub founding_branch : Fields → Box V → Result FoundError Text × Box V
  unfolding has_leaf get_section get_value
  founding_branch sec b =
      let found = get_section sec (text "found") in
      if not (has_leaf found (text "branch"))
      then (err no_branch, b)
      else checked_branch (get_value V A.json_text found (text "branch") b)

  -- the end of `foundIfConfigured`
  abbrev pub set_founded :
      Box V → Result FoundError Founding × World → Result FoundError (Option Founding) × Launch
  set_founded b (err e, w) = (err e, record { box = b; archive = w })
  set_founded b (ok f, w) = (ok (some f), record { box = b; archive = w })

  abbrev pub with_branch :
      Text → World → Result FoundError Text × Box V → Result FoundError (Option Founding) × Launch
  with_branch pem w (err e, b) = (err e, record { box = b; archive = w })
  with_branch pem w (ok branch, b) = set_founded b (found_with pem branch w)

  abbrev pub with_pubkey :
      Fields
      → World
      → Result (ResolveError V) Text × Box V
      → Result FoundError (Option Founding) × Launch
  with_pubkey sec w (err e, b) = (err (unresolved e), record { box = b; archive = w })
  with_pubkey sec w (ok pem, b) = with_branch pem w (founding_branch sec b)

  -- what `foundIfConfigured` does in genesis
  abbrev pub found_configured : Fields → Launch → Result FoundError (Option Founding) × Launch
  found_configured sec x =
      let found = get_section sec (text "found") in
      if not (has_leaf found (text "pubkey"))
      then (err no_first_contributor, x)
      else with_pubkey sec x.archive (get_value V A.json_text found (text "pubkey") x.box)

  -- `foundIfConfigured` of a launch with or without a sequencer
  unfoldable pub found_if_configured :
      Bool → Fields → Launch → Result FoundError (Option Founding) × Launch
  unfolding has_leaf get_section get_value founding_branch found_with
  found_if_configured has_sequencer sec x =
      if not has_sequencer
      then (ok none, x)
      else if not (A.in_genesis x.archive)
      then (ok none, x)
      else found_configured sec x

  abbrev pub archive_founded :
      Box V → Result FoundError Founding × World → Result FoundError Founding × Launch
  archive_founded b (r, w) = (r, record { box = b; archive = w })

  abbrev pub found_on :
      Text → World → Result FoundError Text × Box V → Result FoundError Founding × Launch
  found_on pem w (err e, b) = (err e, record { box = b; archive = w })
  found_on pem w (ok branch, b) = archive_founded b (found_with pem branch w)

  -- `Found` of an assembled stack
  unfoldable pub found_archive : Bool → Fields → Text → Launch → Result FoundError Founding × Launch
  unfolding founding_branch found_with
  found_archive has_sequencer sec pem x =
      if not has_sequencer
      then (err no_sequencer, x)
      else if not (A.in_genesis x.archive)
      then (err already_founded, x)
      else found_on pem x.archive (founding_branch sec x.box)
