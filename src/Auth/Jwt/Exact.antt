-- ===== src/Auth/Jwt/Exact.antt =====
-- adapters/auth/jwt/jwt.go: exactly which tokens authenticate, and as whom.
use ranke_db.Base.{
  ◌≡◌, ◌≢◌, ◌↔◌, ◌⊎◌, refl, sym, ap, ◌∙◌, inl, inr, true, not, Option, none, some, List, [], ◌∷◌,
  ◌++◌, Text, text_eq_iff, all, ok, arith, Option-cases, &&-split,
}
use mathlib.Core.Path.{subst}
use ranke_db.Base.Dict.{Dict, lookup}
use ranke_db.Access.Checker.{Principal}
use ranke_db.Auth.Jwt.{
  Scalar, null, other, str, Claim, one, list, as_string, as_strings, string_claim, claim_values,
  AccountRule, contains, first_rule, account_of, Jose, JwtAuth, jwks_key, key_for, admit,
  authenticate_jwt,
}
use ranke_db.Auth.Jwt.Laws.{Decides, first_rule-Decides, authenticate_jwt-IsVerified}

-- the text that a value of a claim is, `null` being the empty one
abbrev pub IsText : Scalar → Text → Type 0
IsText null s = s ≡ []
IsText other s = ⊥
IsText (str t) s = s ≡ t

abbrev pub AreTexts : List Scalar → List Text → Type 0
AreTexts [] [] = Unit
AreTexts [] (v ∷ vs) = ⊥
AreTexts (x ∷ xs) [] = ⊥
AreTexts (x ∷ xs) (v ∷ vs) = IsText x v × AreTexts xs vs

-- a claim carries its one text or the texts of its list
abbrev pub Carries : Claim → List Text → Type 0
Carries (one x) vs = AreTexts (x ∷ []) vs
Carries (list xs) vs = AreTexts xs vs

as_string-IsText : (x : Scalar) (s : Text) → as_string x ≡ some s → IsText x s
unfolding as_string
as_string-IsText null s h = ground (arith, h)
as_string-IsText other s h = cc
as_string-IsText (str t) s h = ground (arith, h)

IsText-as_string : (x : Scalar) (s : Text) → IsText x s → as_string x ≡ some s
unfolding as_string
IsText-as_string null s h = ap some (sym h)
IsText-as_string other s h = elim h [ ]
IsText-as_string (str t) s h = ap some (sym h)

as_strings-AreTexts : (xs : List Scalar) (vs : List Text) → as_strings xs ≡ some vs → AreTexts xs vs
unfolding as_strings
as_strings-AreTexts [] [] h = tt
as_strings-AreTexts [] (v ∷ vs) h = cc
as_strings-AreTexts (x ∷ xs) vs h = elim (Option-cases (as_string x)) [
  | inl e ↦ let none_left : as_strings (x ∷ xs) ≡ none = rw (e, as_strings) refl in cc
  | inr (s, e) ↦ elim (Option-cases (as_strings xs)) [
    | inl f ↦ let none_left : as_strings (x ∷ xs) ≡ none = rw (e, f, as_strings) refl in cc
    | inr (ss, f) ↦
        let same : as_strings (x ∷ xs) ≡ some (s ∷ ss) = rw (e, f, as_strings) refl in
        let texts : s ∷ ss ≡ vs = cc in
        subst (AreTexts (x ∷ xs)) texts (as_string-IsText x s e, as_strings-AreTexts xs ss f)
  ]
]

AreTexts-as_strings : (xs : List Scalar) (vs : List Text) → AreTexts xs vs → as_strings xs ≡ some vs
unfolding as_strings
AreTexts-as_strings [] [] h = refl
AreTexts-as_strings [] (v ∷ vs) h = elim h [ ]
AreTexts-as_strings (x ∷ xs) [] h = elim h [ ]
AreTexts-as_strings (x ∷ xs) (v ∷ vs) h =
    rw (IsText-as_string x v h.0, AreTexts-as_strings xs vs h.1, as_strings) refl

-- the texts of a claim, on what the payload holds for it
abbrev texts_of : Option Claim → Option (List Text)
texts_of none = none
texts_of (some (one x)) = as_strings (x ∷ [])
texts_of (some (list xs)) = as_strings xs

claim_values_eq :
    (raw : Dict Claim) (name : Text) → claim_values raw name ≡ texts_of (lookup name raw)
unfolding claim_values as_strings
claim_values_eq raw name = elim (Option-cases (lookup name raw)) [
  | inl e ↦ rw (e, claim_values) refl
  | inr (one x, e) ↦ elim (Option-cases (as_string x)) [
    | inl f ↦
        let none_left : as_strings (x ∷ []) ≡ none = rw (f, as_strings) refl in
        rw (e, claim_values) (rw (f) (sym none_left))
    | inr (s, f) ↦
        let alone : as_strings (x ∷ []) ≡ some (s ∷ []) = rw (f, as_strings) refl in
        rw (e, claim_values) (rw (f) (sym alone))
  ]
  | inr (list xs, e) ↦ rw (e, claim_values) refl
]

Carries-texts_of : (c : Claim) (vs : List Text) → Carries c vs → texts_of (some c) ≡ some vs
Carries-texts_of (one x) vs h = AreTexts-as_strings (x ∷ []) vs h
Carries-texts_of (list xs) vs h = AreTexts-as_strings xs vs h

texts_of-Carries : (c : Claim) (vs : List Text) → texts_of (some c) ≡ some vs → Carries c vs
texts_of-Carries (one x) vs h = as_strings-AreTexts (x ∷ []) vs h
texts_of-Carries (list xs) vs h = as_strings-AreTexts xs vs h

first_rule-split :
    (before after : List AccountRule) (r : AccountRule) (values : List Text)
    → all (λ r. not (contains values r.value)) before ≡ true
    → contains values r.value ≡ true
    → first_rule (before ++ (r ∷ after)) values ≡ some r.account
unfolding first_rule
first_rule-split [] after r values p h = rw (h, first_rule) refl
first_rule-split (b ∷ before) after r values p h =
    let both =
      &&-split (not (contains values b.value)) (all (λ r. not (contains values r.value)) before)
        p in
    ground (arith, both.0, first_rule-split before after r values both.1 h)

-- The account that the rules and the claim of that name give: with no rule the claim's one text, if
-- it is not empty; else the account of the first rule whose value is among the claim's texts.
abbrev pub Gives : List AccountRule → Option Claim → Text → Type 0
Gives [] c account = (x : Scalar) × (c ≡ some (one x)) × IsText x account × (account ≢ [])
Gives (r ∷ rules) c account =
    (held : Claim) × (values : List Text) × (c ≡ some held)
    × Carries held values
    × Decides (r ∷ rules) values account

account_by_rules :
    (r : AccountRule) (rules : List AccountRule) (name : Text) (raw : Dict Claim) (account : Text)
    (values : List Text)
    → claim_values raw name ≡ some values
    → account_of (r ∷ rules) name raw ≡ some account
    → Decides (r ∷ rules) values account
unfolding account_of
account_by_rules r rules name raw account values e h =
    let same : account_of (r ∷ rules) name raw ≡ first_rule (r ∷ rules) values =
      rw (e, account_of) refl in
    first_rule-Decides (r ∷ rules) values account (sym same ∙ h)

account_of-Gives :
    (rules : List AccountRule) (name : Text) (raw : Dict Claim) (account : Text)
    → account_of rules name raw ≡ some account
    → Gives rules (lookup name raw) account
unfolding account_of string_claim
account_of-Gives [] name raw account h = elim (Option-cases (lookup name raw)) [
  | inl e ↦ ground (arith, e, h)
  | inr (list xs, e) ↦ ground (arith, e, h)
  | inr (one x, e) ↦ elim (Option-cases (as_string x)) [
    | inl f ↦ ground (arith, e, f, h)
    | inr (s, f) ↦
        let same : s ≡ account = ground (arith, e, f, h) in
        let filled : account ≢ [] = λ n. ground (arith, e, f, h, n, same, text_eq_iff s []) in
        (x, e, subst (IsText x) same (as_string-IsText x s f), filled)
  ]
]
account_of-Gives (r ∷ rules) name raw account h = elim (Option-cases (claim_values raw name)) [
  | inl e ↦ let none_left : account_of (r ∷ rules) name raw ≡ none = rw (e, account_of) refl in cc
  | inr (values, e) ↦
      let found = account_by_rules r rules name raw account values e h in
      elim (Option-cases (lookup name raw)) [
        | inl k ↦
            let none_left : claim_values raw name ≡ none =
              claim_values_eq raw name ∙ ap texts_of k in
            cc
        | inr (c, k) ↦
            let read : texts_of (some c) ≡ some values =
              ap texts_of (sym k) ∙ sym (claim_values_eq raw name) ∙ e in
            (c, values, k, texts_of-Carries c values read, found)
      ]
]

Gives-account_of :
    (rules : List AccountRule) (name : Text) (raw : Dict Claim) (account : Text)
    → Gives rules (lookup name raw) account
    → account_of rules name raw ≡ some account
unfolding account_of string_claim
Gives-account_of [] name raw account (x, e, t, n) =
    rw (e, string_claim)
      (rw (IsText-as_string x account t) (ground (arith, n, text_eq_iff account [])))
Gives-account_of (r ∷ rules) name raw account (c, values, e, v, d) =
    let read : claim_values raw name ≡ some values =
      claim_values_eq raw name ∙ ap texts_of e ∙ Carries-texts_of c values v in
    rw (read, account_of)
      (ap (λ rs. first_rule rs values) d.split
        ∙ first_rule-split d.before d.after d.rule values d.passed d.carried
        ∙ ap some d.named)

List-cases : {A : Type 0} → (xs : List A) → (xs ≡ []) ⊎ ((y : A) × (ys : List A) × (xs ≡ y ∷ ys))
List-cases [] = inl refl
List-cases (y ∷ ys) = inr (y, ys, refl)

module _ (J : Jose) where
  open J use {Token, Key, Registered, parse_signed, key_ids, claims, validate}

  -- The key of the configured source: the configured key, or with a key set the first key that it has
  -- for the first key id of the token.
  abbrev pub IsKeyFor : JwtAuth J → Token → Option Key → Type 0
  IsKeyFor a parsed key =
      ((a.jwks ≡ none) × (key ≡ a.key))
      ⊎ ((source : Text → List Key) × (kid : Text) × (others : List Text) × (k : Key) × (ks : List
            Key)
          × (a.jwks ≡ some source)
          × (key_ids parsed ≡ kid ∷ others)
          × (source kid ≡ k ∷ ks)
          × (key ≡ some k))

  key_for-IsKeyFor :
      (a : JwtAuth J) (parsed : Token) (key : Option Key)
      → key_for J a parsed ≡ some key
      → IsKeyFor a parsed key
  unfolding key_for jwks_key
  key_for-IsKeyFor a parsed key h = elim (Option-cases a.jwks) [
    | inl e ↦ let same : key_for J a parsed ≡ some a.key = rw (e, key_for) refl in inl (e, cc)
    | inr (source, e) ↦ elim (List-cases (key_ids parsed)) [
      | inl i ↦ let same : key_for J a parsed ≡ none = rw (e, key_for) (rw (i) refl) in cc
      | inr (kid, others, i) ↦ elim (List-cases (source kid)) [
        | inl m ↦
            let same : key_for J a parsed ≡ none = rw (e, key_for) (rw (i) (rw (m) refl)) in cc
        | inr (k, ks, m) ↦
            let same : key_for J a parsed ≡ some (some k) =
              rw (e, key_for) (rw (i) (rw (m) refl)) in
            inr (source, kid, others, k, ks, e, i, m, cc)
      ]
    ]
  ]

  IsKeyFor-key_for :
      (a : JwtAuth J) (parsed : Token) (key : Option Key)
      → IsKeyFor a parsed key
      → key_for J a parsed ≡ some key
  unfolding key_for jwks_key
  IsKeyFor-key_for a parsed key (inl (e, k)) = rw (e, key_for) (ap some (sym k))
  IsKeyFor-key_for a parsed key (inr (source, kid, others, k, ks, e, i, m, q)) =
      rw (e, key_for) (rw (i) (rw (m) (ap some (sym q))))

  -- What stands behind a principal: a token of the configured algorithm, verified with the key of the
  -- configured source and valid for the configured issuer and audience, whose claims give the account.
  pub record IsVouched (a : JwtAuth J) (token : Text) (p : Principal) : Type 0 where
    pub parsed : Token
    pub key : Option Key
    pub registered : Registered
    pub raw : Dict Claim
    pub algorithm : parse_signed token a.algorithm ≡ some parsed
    pub source : IsKeyFor a parsed key
    pub signature : claims parsed key ≡ some (registered, raw)
    pub valid : validate registered a.issuer a.audience ≡ true
    pub account : Gives a.accounts (lookup a.account_claim raw) p.account
    pub no_caveats : p.caveats ≡ []

  IsVouched-authenticate_jwt :
      (a : JwtAuth J) (token : Text) (p : Principal)
      → IsVouched a token p
      → authenticate_jwt J a token ≡ ok p
  unfolding authenticate_jwt admit
  IsVouched-authenticate_jwt a token p v =
      rw (v.algorithm, authenticate_jwt)
        (rw (IsKeyFor-key_for a v.parsed v.key v.source) (
          rw (v.signature) (
            rw (v.valid) (
              rw (Gives-account_of a.accounts a.account_claim v.raw p.account v.account) (
                ap (λ cs. ok (record { account = p.account; caveats = cs })) (sym v.no_caveats))))))

  -- A token authenticates as a principal exactly when it parses for the configured algorithm, its
  -- claims verify with the key of the configured source, which is the configured key or, with a key
  -- set, the first that the set has for the token's first key id, they are valid for the configured
  -- issuer and audience, and they give the account: by the first rule whose value the account claim
  -- carries, or with no rules as its one text, which is not empty. The principal has no caveats.
  pub authenticate_jwt_iff :
      (a : JwtAuth J) (token : Text) (p : Principal)
      → (authenticate_jwt J a token ≡ ok p) ↔ IsVouched a token p
  authenticate_jwt_iff a token p = (
    λ h.
        let v = authenticate_jwt-IsVerified J a token p h in
        record {
          parsed = v.parsed;
          key = v.key;
          registered = v.registered;
          raw = v.raw;
          algorithm = v.algorithm;
          source = key_for-IsKeyFor a v.parsed v.key v.source;
          signature = v.signature;
          valid = v.valid;
          account = account_of-Gives a.accounts a.account_claim v.raw p.account v.account;
          no_caveats = v.no_caveats;
        },
    IsVouched-authenticate_jwt a token p,
  )
