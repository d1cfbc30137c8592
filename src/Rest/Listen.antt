-- ===== src/Rest/Listen.antt =====
-- adapters/endpoints/rest_http/rest_http.go: the address that an endpoint listens on, the permissions
-- of its socket, and `New`, which reads them from the transport's section; claiming the socket.
use ranke_db.Base.{
  ℕ, ◌+◌, ◌-◌, ◌*◌, Bool, not, ◌&&◌, ◌||◌, Option, none, some, [], ◌∷◌, Text, text, text_eq, length,
  cut_prefix, has_prefix, Result, ok, err, ◌>>=◌, leb, ltb, if◌then◌else◌,
}
use ranke_db.Base.Dict.{Dict}
use ranke_db.Storage.{Unresolved, has_value, get}
use ranke_db.Rest.Cors.{CorsPolicy, cors_from}

pub data Network : Type 0 where
  tcp unix : Network

pub data AddressError : Type 0 where
  no_socket_path socket_path_too_long needs_scheme : AddressError

pub data ListenError : Type 0 where
  unresolved : Unresolved → ListenError
  bad_address : AddressError → ListenError
  bad_mode unknown_group bad_gid : ListenError

abbrev pub unix_scheme : Text
unix_scheme = text "unix://"

abbrev pub max_socket_path_len : ℕ
max_socket_path_len = 107

-- `parseAddr`
unfoldable pub parse_addr : Text → Result AddressError (Network × Text)
unfolding cut_prefix text_eq
parse_addr addr = elim (cut_prefix addr unix_scheme) [
  | none ↦ ok (tcp, addr)
  | some rest ↦ if text_eq rest [] then err no_socket_path else ok (unix, rest)
]

-- `ValidateAddr`
unfoldable pub validate_addr : Text → Option AddressError
unfolding cut_prefix has_prefix
validate_addr addr = elim (cut_prefix addr unix_scheme) [
  | some rest ↦ if ltb max_socket_path_len (length rest) then some socket_path_too_long else none
  | none ↦
      if has_prefix addr (text "/") || has_prefix addr (text "./") then some needs_scheme else none
]

-- the number that digits of a base stand for, read after `acc`
unfoldable pub digits_value : ℕ → ℕ → Text → Option ℕ
digits_value base acc [] = some acc
digits_value base acc (c ∷ s) =
    let rest = digits_value base (acc * base + (c - 48)) s in
    if leb 48 c && ltb c (48 + base) then rest else none

-- strconv.ParseUint; a number beyond 32 bits fails there, and as beyond the bound of the caller here
unfoldable pub parse_octal : Text → Option ℕ
unfolding digits_value
parse_octal [] = none
parse_octal (c ∷ s) = digits_value 8 0 (c ∷ s)

abbrev pub optional_prefix : Text → Text → Text
optional_prefix s p = elim (cut_prefix s p) [ none ↦ s | some rest ↦ rest ]

-- the permission bits of a mode, which fit in nine
abbrev pub mode_bits : Option ℕ → Result ListenError ℕ
mode_bits none = err bad_mode
mode_bits (some bits) = if ltb 0x1ff bits then err bad_mode else ok bits

abbrev pub resolved : {A : Type 0} → Result Unresolved A → Result ListenError A
resolved (ok a) = ok a
resolved (err e) = err (unresolved e)

abbrev pub Values : Type 0
Values = Dict (Result Unresolved Text)

-- `socketMode`; 0o600 is 384
unfoldable pub socket_mode : Values → Result ListenError ℕ
unfolding has_value get cut_prefix parse_octal
socket_mode cfg = if not (has_value cfg (text "mode")) then ok 384 else (do
  raw ← resolved (get cfg (text "mode"))
  mode_bits (parse_octal (optional_prefix raw (text "0o"))))

-- `socketGroup`: the name's gid is the system's, in decimal, and a number may have a sign
module _ (Gid : Type 0) (atoi : Text → Option Gid) (lookup_group : Text → Option Text) where
  unfoldable pub socket_group : Values → Result ListenError (Option Gid)
  unfolding has_value get
  socket_group cfg = if not (has_value cfg (text "group")) then ok none else (do
    raw ← resolved (get cfg (text "group"))
    elim (atoi raw) [
      | some gid ↦ ok (some gid)
      | none ↦ elim (lookup_group raw) [
        | none ↦ err unknown_group
        | some name ↦ elim (atoi name) [ none ↦ err bad_gid | some gid ↦ ok (some gid) ]
      ]
    ])

  -- `Server` without its core, with the policy and the switch that its handler was built from
  pub record Listener : Type 0 where
    pub network : Network
    pub address : Text
    pub mode : ℕ
    pub group : Option Gid
    pub cors : CorsPolicy
    pub explorer : Bool

  -- the permissions, read for a socket only
  abbrev pub permissions : Network → Values → Result ListenError (ℕ × Option Gid)
  permissions tcp cfg = ok (384, none)
  permissions unix cfg = do mode ← socket_mode cfg; group ← socket_group cfg; ok (mode, group)

  abbrev pub addressed : Result AddressError (Network × Text) → Result ListenError (Network × Text)
  addressed (ok a) = ok a
  addressed (err e) = err (bad_address e)

  -- a value of the section, and what stands for it where it is absent
  abbrev pub value_or : Values → Text → Text → Result ListenError Text
  value_or cfg key default = if has_value cfg key then resolved (get cfg key) else ok default

  -- `New`
  unfoldable pub new_listener : Values → Result ListenError Listener
  unfolding has_value get parse_addr socket_mode socket_group cors_from text_eq
  new_listener cfg = do
    declared ← value_or cfg (text "addr") (text ":8080")
    where_to ← addressed (parse_addr (if text_eq declared [] then text ":8080" else declared))
    allowed ← permissions where_to.0 cfg
    cors ← resolved (cors_from cfg)
    explorer ← value_or cfg (text "explorer") []
    ok (record {
      network = where_to.0;
      address = where_to.1;
      mode = allowed.0;
      group = allowed.1;
      cors = cors;
      explorer = not (text_eq explorer (text "false"));
    })

-- what stands at a socket's path: nothing, a file of another kind, a socket that somebody answers or
-- not, or what `Stat` does not tell
pub data PathState : Type 0 where
  free other_file live_socket dead_socket unreadable : PathState

pub data ClaimError : Type 0 where
  stat_failed not_a_socket already_listening : ClaimError

-- `claimSocket`: the error, if there is one, and what stands at the path then
unfoldable pub claim_socket : PathState → Option ClaimError × PathState
claim_socket free = (none, free)
claim_socket unreadable = (some stat_failed, unreadable)
claim_socket other_file = (some not_a_socket, other_file)
claim_socket live_socket = (some already_listening, live_socket)
claim_socket dead_socket = (none, free)
