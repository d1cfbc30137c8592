-- ===== src/Access/Grant/RoundTrip.antt =====
-- `Grant.String` and `ParseGrant` are inverse on what `ParseGrant` returns.
use ranke_db.Base.{
  ℕ, ◌+◌, ◌*◌, ◌≡◌, ◌≢◌, refl, ap, Bool, true, false, ◌&&◌, ◌||◌, [], ◌∷◌, ◌++◌, Text, ok, err,
  Result, arith, ◌==◌, ◌%◌, is_space,
}
use ranke_db.Base.Fields.{IsField, is_solid, fields_of_two}
use ranke_db.Base.Tables.{all_below, at_below}
use ranke_db.Access.Grant.{
  Grant, GrantError, bit, add_letters, parse_grant, letters_of, print_grant,
}
use ranke_db.Access.Grant.Legal.{IsRights, parse_grant-IsParsed, check_glob_iff}

is_ok_at : ℕ → Result GrantError ℕ → Bool
is_ok_at n (ok m) = m == n
is_ok_at n (err e) = false

is_nonempty : Text → Bool
is_nonempty [] = false
is_nonempty (c ∷ s) = true

reads_back : ℕ → Bool
reads_back n =
    n == 0
    || (is_nonempty (letters_of n)
        && is_solid (letters_of n)
        && is_ok_at n (add_letters 0 (letters_of n)))

reads_back_table : all_below 16 reads_back ≡ true
unfolding all_below reads_back is_nonempty is_ok_at letters_of add_letters bit is_space
reads_back_table = refl

ne_of_is_nonempty : (s : Text) → is_nonempty s ≡ true → s ≢ []
unfolding is_nonempty
ne_of_is_nonempty [] h e = cc
ne_of_is_nonempty (c ∷ s) h e = cc

ok_of_is_ok_at : (n : ℕ) (r : Result GrantError ℕ) → is_ok_at n r ≡ true → r ≡ ok n
unfolding is_ok_at
ok_of_is_ok_at n (ok m) h = ground arith
ok_of_is_ok_at n (err e) h = cc

letters_of-IsField : (rs : ℕ) → IsRights rs → IsField (letters_of rs)
unfolding reads_back
letters_of-IsField rs h = record {
  nonempty =
      ne_of_is_nonempty (letters_of rs)
        (ground (arith, reads_back_table, at_below 16 reads_back rs));
  solid = ground (arith, reads_back_table, at_below 16 reads_back rs);
}

add_letters-letters_of : (rs : ℕ) → IsRights rs → add_letters 0 (letters_of rs) ≡ ok rs
unfolding reads_back
add_letters-letters_of rs h =
    ok_of_is_ok_at rs (add_letters 0 (letters_of rs))
      (ground (arith, reads_back_table, at_below 16 reads_back rs))

-- Printing a grant that was parsed gives a spec that parses to the same grant.
pub parse-print :
    (spec : Text) (g : Grant) → parse_grant spec ≡ ok g → parse_grant (print_grant g) ≡ ok g
unfolding parse_grant print_grant
parse-print spec g h =
    let p = parse_grant-IsParsed spec g h in
    rw (fields_of_two (letters_of g.rights) g.glob (letters_of-IsField g.rights p.rights) p.word)
      (rw (add_letters-letters_of g.rights p.rights) ((check_glob_iff g.rights g.glob).1 p.legal))

low_byte : (c k : ℕ) → (c + 256 * k) % 256 ≡ c % 256
low_byte c k = omega arith

add_letters-low_byte :
    (rs c k : ℕ) (s : Text) → add_letters rs ((c + 256 * k) ∷ s) ≡ add_letters rs (c ∷ s)
unfolding add_letters
add_letters-low_byte rs c k s = ground (arith, ap bit (low_byte c k))

-- A letter and another one that differs from it by a multiple of 256 are read as one right: where
-- neither is a space, the two specs have one result.
pub parse_grant-low_byte :
    (c k : ℕ) (letters glob : Text)
    → IsField ((c + 256 * k) ∷ letters)
    → IsField (c ∷ letters)
    → IsField glob
    → parse_grant ((c + 256 * k) ∷ (letters ++ (b' ' ∷ glob)))
      ≡ parse_grant (c ∷ (letters ++ (b' ' ∷ glob)))
unfolding parse_grant
parse_grant-low_byte c k letters glob h h' w =
    rw (fields_of_two ((c + 256 * k) ∷ letters) glob h w)
      (rw (fields_of_two (c ∷ letters) glob h' w) (rw (add_letters-low_byte 0 c k letters)))
