-- ===== src/Core/Footprint.antt =====
-- What a request may do to the exchange it runs on.
use ranke_db.Base.{◌≡◌, sym, ◌∙◌, ap, Bool, true, false, some, ok}
use ranke_db.Auth
use ranke_db.Core.Library.{Ranke}
use ranke_db.Core.Values.{
  Operation, claim_contribute, verification_start, verification_cancel, verification_delete,
  dev_clock_advance, Request, Server, Exchange,
}
use ranke_db.Core.Read.{advance}
use ranke_db.Core.Contribute.{contribute}
use ranke_db.Core.Execute.{}
use ranke_db.Core.Frame.{}
use ranke_db.Core.Gate.{}
use ranke_db.Verification.Values.{Config}
use ranke_db.Verification.Limit.{Op, apply, start_op, stop_op, remove_op}
use ranke_db.Core.Effects.{Licence}

abbrev pub is_run_op : Operation → Bool
is_run_op verification_start = true
is_run_op verification_cancel = true
is_run_op verification_delete = true
is_run_op _ = false

module _ {R : Ranke} (c : Server) (req : Request R) (x : Exchange R) where
  -- the exchange where the principal is known and nothing else has happened
  pub record IsIdentified (t : Exchange R) : Type 0 where
    pub known : Auth.authenticate c.auth req.credential ≡ ok t.principal
    pub frame : t ≡ record x { principal = t.principal; report = t.report }

  -- The operation of the registry that a request asks for: to start a run of its configuration at the
  -- head of the archive, now, or to cancel or to delete the run with its id.
  abbrev pub Requested : Operation → Op → Type 0
  Requested verification_start o =
      (a : R.Archive) × (cfg : Config) × (R.get_archive x.world ≡ ok a)
      × (req.ver_config ≡ some cfg)
      × (o ≡ start_op (some (R.id_text (R.archive_head a))) (R.verify x.world a) cfg x.now)
  Requested verification_cancel o = o ≡ stop_op req.ver_id
  Requested verification_delete o = o ≡ remove_op req.ver_id
  Requested _ o = ⊥

  -- what a request does to the exchange: the principal and the report may be written, and beside
  -- them one part at most
  pub data Effect (op : Operation) (y : Exchange R) : Type 0 where
    reported : y ≡ record x { principal = y.principal; report = y.report } → Effect op y
    contributed :
        op ≡ claim_contribute
        → (t : Exchange R) → IsIdentified t
        → Licence c req t
        → y ≡ (contribute c req t).1
        → y ≡ record x { world = y.world; principal = y.principal; report = y.report }
        → Effect op y
    ran :
        is_run_op op ≡ true
        → (o : Op) → Requested op o
        → y ≡ record x { runs = apply x.runs o; principal = y.principal; report = y.report }
        → Effect op y
    advanced :
        op ≡ dev_clock_advance
        → c.has_dev_clock ≡ true
        → y ≡ record x {
          clock = advance req.dev_clock_at x.clock;
          principal = y.principal;
          report = y.report;
        }
        → Effect op y

  pub still :
      (t y : Exchange R) → y ≡ record t { report = y.report } → IsIdentified t → IsIdentified y
  still t y h i =
      let same : y.principal ≡ t.principal = ap (λ (s : Exchange R). s.principal) h in
      record {
        known = i.known ∙ ap ok (sym same);
        frame =
            h
            ∙ ap {A = Exchange R} (λ s. record s { report = y.report }) i.frame
            ∙ ap (λ p. record x { principal = p; report = y.report }) (sym same);
      }

  pub quietly :
      (op : Operation) (t y : Exchange R)
      → y ≡ record t { report = y.report }
      → IsIdentified t
      → Effect op y
  quietly op t y h i = reported (still t y h i).frame

  pub running :
      (op : Operation) (o : Op) (t y : Exchange R)
      → is_run_op op ≡ true
      → Requested op o
      → y ≡ record t { runs = apply t.runs o; report = y.report }
      → IsIdentified t
      → Effect op y
  running op o t y e q h i =
      let same : y.principal ≡ t.principal = ap (λ (s : Exchange R). s.principal) h in
      ran e o q (
        h
        ∙ ap {A = Exchange R} (λ s. record s { runs = apply s.runs o; report = y.report }) i.frame
        ∙ ap (λ p. record x { runs = apply x.runs o; principal = p; report = y.report }) (sym same))

  pub merging :
      (t u v : Exchange R)
      → v ≡ record u { world = v.world; report = v.report }
      → u ≡ record t { report = u.report }
      → IsIdentified t
      → v ≡ record x { world = v.world; principal = v.principal; report = v.report }
  merging t u v h k i =
      let same : v.principal ≡ u.principal = ap (λ (s : Exchange R). s.principal) h in
      h
      ∙ ap {A = Exchange R} (λ s. record s { world = v.world; report = v.report })
          (still t u k i).frame
      ∙ ap (λ p. record x { world = v.world; principal = p; report = v.report }) (sym same)
