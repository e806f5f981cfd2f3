-- ===== src/Capture/Scrubbed.antt =====
-- Nothing sensitive is left in a body or in headers.
use tortureu.Base.{
  String, Bool, true, List, [], ◌∷◌, ◌≡◌, refl, arith, eq_iff, Dict, lookup, contains,
  if◌then◌else◌, Bool-cases, inl, inr, ap, ℤ,
}
use tortureu.Value.{
  Value, Items, Fields, null, bool, int, int64, float, str, seq, obj, nil, cons, end, field,
}
use tortureu.Float64.{Float64}
use mathlib.Core.Option
use tortureu.Capture.{
  redacted, is_sensitive, scrub_value, scrub_items, scrub_fields, scrub_header, sensitive_headers,
  canonical_header_key,
}

-- Two values that differ at most under sensitive keys, at any depth.
mutual
  pub data SamePublic : Value → Value → Type 0 where
    same_null : SamePublic null null
    same_bool : (b : Bool) → SamePublic (bool b) (bool b)
    same_int : (n : ℤ) → SamePublic (int n) (int n)
    same_int64 : (n : ℤ) → SamePublic (int64 n) (int64 n)
    same_float : (x : Float64) → SamePublic (float x) (float x)
    same_str : (s : String) → SamePublic (str s) (str s)
    same_seq : {xs ys : Items} → SameItems xs ys → SamePublic (seq xs) (seq ys)
    same_obj : {fs gs : Fields} → SameFields fs gs → SamePublic (obj fs) (obj gs)

  pub data SameItems : Items → Items → Type 0 where
    same_nil : SameItems nil nil
    same_cons :
        {x y : Value} {xs ys : Items}
        → SamePublic x y
        → SameItems xs ys
        → SameItems (cons x xs) (cons y ys)

  pub data SameFields : Fields → Fields → Type 0 where
    same_end : SameFields end end
    shown :
        {k : String} {v w : Value} {fs gs : Fields}
        → SamePublic v w
        → SameFields fs gs
        → SameFields (field k v fs) (field k w gs)
    hidden :
        {k : String} {v w : Value} {fs gs : Fields}
        → is_sensitive k ≡ true
        → SameFields fs gs
        → SameFields (field k v fs) (field k w gs)

mutual
  unfolding scrub_value

  scrub_value-cong : {v w : Value} → SamePublic v w → scrub_value v ≡ scrub_value w
  scrub_value-cong same_null = refl
  scrub_value-cong (same_bool b) = refl
  scrub_value-cong (same_int n) = refl
  scrub_value-cong (same_int64 n) = refl
  scrub_value-cong (same_float x) = refl
  scrub_value-cong (same_str s) = refl
  scrub_value-cong (same_seq h) = ap seq (scrub_items-cong h)
  scrub_value-cong (same_obj h) = ap obj (scrub_fields-cong h)

  scrub_items-cong : {xs ys : Items} → SameItems xs ys → scrub_items xs ≡ scrub_items ys
  scrub_items-cong same_nil = refl
  scrub_items-cong (same_cons h t) = cc (scrub_value-cong h, scrub_items-cong t)

  scrub_fields-cong : {fs gs : Fields} → SameFields fs gs → scrub_fields fs ≡ scrub_fields gs
  scrub_fields-cong same_end = refl
  scrub_fields-cong (shown {k} h t) = elim (Bool-cases (is_sensitive k)) [
    | inl s ↦ rw s (ap (field k (str redacted)) (scrub_fields-cong t))
    | inr s ↦ rw s (cc (scrub_value-cong h, scrub_fields-cong t))
  ]
  scrub_fields-cong (hidden {k} s t) = rw s (ap (field k (str redacted)) (scrub_fields-cong t))

mutual
  unfolding scrub_value

  scrub_value-same : {v w : Value} → SamePublic v w → SamePublic w (scrub_value v)
  scrub_value-same same_null = same_null
  scrub_value-same (same_bool b) = same_bool b
  scrub_value-same (same_int n) = same_int n
  scrub_value-same (same_int64 n) = same_int64 n
  scrub_value-same (same_float x) = same_float x
  scrub_value-same (same_str s) = same_str s
  scrub_value-same (same_seq h) = same_seq (scrub_items-same h)
  scrub_value-same (same_obj h) = same_obj (scrub_fields-same h)

  scrub_items-same : {xs ys : Items} → SameItems xs ys → SameItems ys (scrub_items xs)
  scrub_items-same same_nil = same_nil
  scrub_items-same (same_cons h t) = same_cons (scrub_value-same h) (scrub_items-same t)

  scrub_fields-same : {fs gs : Fields} → SameFields fs gs → SameFields gs (scrub_fields fs)
  scrub_fields-same same_end = same_end
  scrub_fields-same (shown {k} h t) = elim (Bool-cases (is_sensitive k)) [
    | inl s ↦ rw s (hidden s (scrub_fields-same t))
    | inr s ↦ rw s (shown (scrub_value-same h) (scrub_fields-same t))
  ]
  scrub_fields-same (hidden {k} s t) = rw s (hidden s (scrub_fields-same t))

-- What is written of a JSON value says nothing about its secrets: of two values that differ at most
-- under sensitive keys, at any depth, the same is written. And nothing but those is redacted: what is
-- written differs from them at most under sensitive keys.
pub scrub_value-SamePublic :
    (v w : Value) → SamePublic v w → (scrub_value v ≡ scrub_value w) × SamePublic w (scrub_value v)
scrub_value-SamePublic v w h = (scrub_value-cong h, scrub_value-same h)

-- Every header stays under its name. Its values are replaced by the one mark if the canonical form of its
-- name is sensitive, however the name is written, and are kept if not.
pub lookup-scrub_header :
    (h : Dict (List String)) (k : String)
    → lookup k (scrub_header h) ≡ (
        if contains sensitive_headers (canonical_header_key k)
        then Option.map (λ vs. redacted ∷ []) (lookup k h)
        else lookup k h)
unfolding scrub_header
lookup-scrub_header [] k = ground arith
lookup-scrub_header ((j, vs) ∷ h) k = ground (arith, eq_iff j k, lookup-scrub_header h k)
