-- ===== src/Wire/Split.antt =====
-- client/seq.go: a response's body split into records by the framing that its media type names, with
-- `bytes.TrimSpace`.
use ranke_db.Base.{
  ℕ, zero, suc, Bool, ◌&&◌, ◌||◌, Option, none, some, List, [], ◌∷◌, Text, text_eq, split_on,
  drop_empty, length, Result, ok, err, ◌>>=◌, map, leb, ◌==◌, if◌then◌else◌,
}
use mathlib.Core.List.{reverse}
use ranke_db.Errors.{Fault}
use ranke_db.Core.Library.{Ranke}
use ranke_db.Wire.{
  media_json_seq, media_cbor_seq, record_separator, Encoding, result_json, result_cbor, ended,
  read_item, failed, Codec,
}
use ranke_db.Wire.Serve.{unclassified}

-- the errors of a read: `ErrUnknownFraming`, with its details left out, and any other
pub data ReadError : Type 0 where
  unknown_framing : ReadError
  failure : Fault → ReadError

-- the white space of one byte
abbrev pub is_ascii_space : ℕ → Bool
is_ascii_space c = (leb 9 c && leb c 13) || c == 32

-- the code points of `unicode.IsSpace` whose UTF-8 form has two bytes, and three
abbrev pub is_space_pair : ℕ → ℕ → Bool
is_space_pair c d = c == 0xc2 && (d == 0x85 || d == 0xa0)

abbrev pub is_space_triple : ℕ → ℕ → ℕ → Bool
is_space_triple c d e =
    (c == 0xe1 && d == 0x9a && e == 0x80)
    || (c == 0xe2
        && d == 0x80
        && ((leb 0x80 e && leb e 0x8a) || e == 0xa8 || e == 0xa9 || e == 0xaf))
    || (c == 0xe2 && d == 0x81 && e == 0x9f)
    || (c == 0xe3 && d == 0x80 && e == 0x80)

abbrev pub cut_triple : ℕ → ℕ → Text → Option Text
cut_triple c d [] = none
cut_triple c d (e ∷ s) = if is_space_triple c d e then some s else none

abbrev pub cut_pair : ℕ → Text → Option Text
cut_pair c [] = none
cut_pair c (d ∷ s) = if is_space_pair c d then some s else cut_triple c d s

-- what follows the white space that a text begins with
unfoldable pub cut_first : Text → Option Text
cut_first [] = none
cut_first (c ∷ s) = if is_ascii_space c then some s else cut_pair c s

abbrev pub cut_last_triple : ℕ → ℕ → Text → Option Text
cut_last_triple e d [] = none
cut_last_triple e d (c ∷ s) = if is_space_triple c d e then some s else none

abbrev pub cut_last_pair : ℕ → Text → Option Text
cut_last_pair d [] = none
cut_last_pair d (c ∷ s) = if is_space_pair c d then some s else cut_last_triple d c s

-- the same for the end of a text, which is given from its last byte
unfoldable pub cut_last : Text → Option Text
cut_last [] = none
cut_last (c ∷ s) = if is_ascii_space c then some s else cut_last_pair c s

-- Cuts are made while there is one to make; each takes a byte, so the length is enough fuel.
unfoldable pub strip : (Text → Option Text) → ℕ → Text → Text
strip cut zero s = s
strip cut (suc n) s = elim (cut s) [ none ↦ s | some r ↦ strip cut n r ]

-- bytes.TrimSpace
unfoldable pub trim_space : Text → Text
unfolding strip cut_first cut_last
trim_space s =
    let t = reverse (strip cut_first (length s) s) in reverse (strip cut_last (length t) t)

-- the runs between the separators
abbrev pub chunks : Text → List Text
chunks = split_on record_separator

-- `splitJSONSeq` of the bytes that are read and the error, if one, that ends them
unfoldable pub split_json_seq : Text → Option Fault → Result ReadError (List Text)
unfolding split_on trim_space
split_json_seq s none = ok (drop_empty (map trim_space (chunks s)))
split_json_seq s (some e) = err (failure e)

module _ {R : Ranke} (C : Codec R) where
  -- the loop of `splitCBORSeq`: a round takes an item, so one more than the bytes are enough rounds
  unfoldable pub split_items : ℕ → Option Fault → Text → Result ReadError (List Text)
  split_items zero f s = err (failure unclassified)
  split_items (suc n) f s = elim (C.next_item s f) [
    | ended ↦ ok []
    | failed e ↦ err (failure e)
    | read_item raw rest ↦ do records ← split_items n f rest; ok (raw ∷ records)
  ]

  -- `splitCBORSeq`
  unfoldable pub split_cbor_seq : Text → Option Fault → Result ReadError (List Text)
  unfolding split_items
  split_cbor_seq s f = split_items (suc (length s)) f s

  -- the switch of `splitBody`
  abbrev pub split_as : Text → Text → Option Fault → Result ReadError (List Text × Encoding)
  split_as ct s f =
      if text_eq ct media_json_seq
      then (do records ← split_json_seq s f; ok (records, result_json))
      else if text_eq ct media_cbor_seq
      then (do records ← split_cbor_seq s f; ok (records, result_cbor))
      else err unknown_framing

  -- `splitBody` of the header and of the body
  unfoldable pub split_body : Text → Text → Option Fault → Result ReadError (List Text × Encoding)
  unfolding split_json_seq split_cbor_seq trim_space
  split_body header s f = elim (C.media_type_of header) [
    | some ct ↦ split_as ct s f
    | none ↦ split_as (trim_space header) s f
  ]
