-- ===== src/Auth/Jwt/Laws.antt =====
-- What an authenticated bearer token has shown, and which account the rules give it.
use ranke_db.Base.{
  ◌≡◌, ◌≢◌, refl, inl, inr, true, not, Option, some, List, [], ◌∷◌, ◌++◌, Text, text_eq_iff, All,
  all, ok, arith, Bool-cases, Option-cases,
}
use ranke_db.Base.Dict.{Dict}
use ranke_db.Access.Checker.{Principal}
use ranke_db.Auth.Jwt.{
  Claim, string_claim, claim_values, AccountRule, read_rules, contains, first_rule, account_of,
  Jose, JwtAuth, key_for, admit, authenticate_jwt,
}

-- The rule that decides: no rule before it has a value that the claim carries.
pub record Decides (rules : List AccountRule) (values : List Text) (account : Text) : Type 0 where
  pub before : List AccountRule
  pub rule : AccountRule
  pub after : List AccountRule
  pub split : rules ≡ before ++ (rule ∷ after)
  pub passed : all (λ r. not (contains values r.value)) before ≡ true
  pub carried : contains values rule.value ≡ true
  pub named : rule.account ≡ account

-- The account is that of the first rule, in the order of the configuration, whose value the claim
-- carries, whatever the order of the claim's values.
pub first_rule-Decides :
    (rules : List AccountRule) (values : List Text) (account : Text)
    → first_rule rules values ≡ some account
    → Decides rules values account
unfolding first_rule
first_rule-Decides [] values account h = cc
first_rule-Decides (r ∷ rules) values account h = elim (Bool-cases (contains values r.value)) [
  | inl e ↦ record {
    before = [];
    rule = r;
    after = rules;
    split = refl;
    passed = refl;
    carried = e;
    named = ground arith;
  }
  | inr e ↦
      let d = first_rule-Decides rules values account (ground arith) in
      record {
        before = r ∷ d.before;
        rule = d.rule;
        after = d.after;
        split = cc d.split;
        passed = ground (arith, d.passed);
        carried = d.carried;
        named = d.named;
      }
]

abbrev pub IsNamed : AccountRule → Type 0
IsNamed r = r.account ≢ []

-- Every rule that was read names an account.
pub read_rules-IsNamed :
    (entries : List (Text × Text)) (rules : List AccountRule)
    → read_rules entries ≡ some rules
    → All IsNamed rules
unfolding read_rules
read_rules-IsNamed [] [] h = tt
read_rules-IsNamed [] (r ∷ rules) h = cc
read_rules-IsNamed ((v, a) ∷ entries) [] h = tt
read_rules-IsNamed ((v, a) ∷ entries) (r ∷ rules) h =
    (λ e. ground (arith, text_eq_iff a []), read_rules-IsNamed entries rules (ground arith))

first_rule-ne-nil :
    (rules : List AccountRule) (values : List Text) (account : Text)
    → All IsNamed rules
    → first_rule rules values ≡ some account
    → account ≢ []
unfolding first_rule
first_rule-ne-nil [] values account n h = cc
first_rule-ne-nil (r ∷ rules) values account n h = elim (Bool-cases (contains values r.value)) [
  | inl e ↦ λ q. n.0 (ground arith)
  | inr e ↦ first_rule-ne-nil rules values account n.1 (ground arith)
]

string_claim-ne-nil :
    (raw : Dict Claim) (name account : Text) → string_claim raw name ≡ some account → account ≢ []
unfolding string_claim
string_claim-ne-nil raw name account h e = ground (arith, text_eq_iff account [])

account_of-ne-nil :
    (rules : List AccountRule) (name : Text) (raw : Dict Claim) (account : Text)
    → All IsNamed rules
    → account_of rules name raw ≡ some account
    → account ≢ []
unfolding account_of
account_of-ne-nil [] name raw account n h = string_claim-ne-nil raw name account h
account_of-ne-nil (r ∷ rules) name raw account n h = elim (Option-cases (claim_values raw name)) [
  | inl e ↦ ground arith
  | inr (values, e) ↦ first_rule-ne-nil (r ∷ rules) values account n (ground arith)
]

module _ (J : Jose) where
  open J use {Token, Key, Registered, parse_signed, claims, validate}

  -- What stands behind a principal: the token parsed for the configured algorithm, verified with
  -- the key of the configured source and validated, its claim giving the account.
  pub record IsVerified (a : JwtAuth J) (token : Text) (p : Principal) : Type 0 where
    pub parsed : Token
    pub key : Option Key
    pub registered : Registered
    pub raw : Dict Claim
    pub algorithm : parse_signed token a.algorithm ≡ some parsed
    pub source : key_for J a parsed ≡ some key
    pub signature : claims parsed key ≡ some (registered, raw)
    pub valid : validate registered a.issuer a.audience ≡ true
    pub account : account_of a.accounts a.account_claim raw ≡ some p.account
    pub no_caveats : p.caveats ≡ []

  -- A token that authenticates was parsed for the configured algorithm, verified with a key of the
  -- configured source and validated against the configured issuer and audience; its account is what
  -- the account claim gives, and it carries no caveats.
  pub authenticate_jwt-IsVerified :
      (a : JwtAuth J) (token : Text) (p : Principal)
      → authenticate_jwt J a token ≡ ok p
      → IsVerified a token p
  unfolding authenticate_jwt admit
  authenticate_jwt-IsVerified a token p h = elim (Option-cases (parse_signed token a.algorithm)) [
    | inl e ↦ ground arith
    | inr (parsed, e) ↦ elim (Option-cases (key_for J a parsed)) [
      | inl f ↦ ground arith
      | inr (key, f) ↦ elim (Option-cases (claims parsed key)) [
        | inl g ↦ ground arith
        | inr ((registered, raw), g) ↦ record {
          parsed = parsed;
          key = key;
          registered = registered;
          raw = raw;
          algorithm = e;
          source = f;
          signature = g;
          valid = ground arith;
          account = ground arith;
          no_caveats = ground arith;
        }
      ]
    ]
  ]

  -- With rules that each name an account no token authenticates as the empty account.
  pub authenticate_jwt-ne-nil :
      (a : JwtAuth J) (token : Text) (p : Principal)
      → All IsNamed a.accounts
      → authenticate_jwt J a token ≡ ok p
      → p.account ≢ []
  authenticate_jwt-ne-nil a token p n h =
      let v = authenticate_jwt-IsVerified a token p h in
      account_of-ne-nil a.accounts a.account_claim v.raw p.account n v.account
