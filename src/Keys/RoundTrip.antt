-- ===== src/Keys/RoundTrip.antt =====
-- `splitKey` and the joining of `buildKey` (src/utils/build-key.ts), one after the other.
use nodejs_proto_cache.Prelude.{
  ℕ, ==_iff, ◌≡◌, ◌≢◌, refl, sym, ◌∙◌, ap, inl, inr, true, false, List, [], ◌∷◌, ◌++◌, append_assoc,
  append-nil, arith, ◌==◌, All, Bool-cases,
}
use nodejs_proto_cache.Keys.{Text, colon, join, split_from, split_key}

-- No code unit of the key is a colon.
abbrev pub ColonFree : Text → Type 0
ColonFree = All (λ c. (c == colon) ≡ false)

split_from-cons : (part s : Text) → (k : Text) × (ks : List Text) × (split_from part s ≡ k ∷ ks)
unfolding split_from
split_from-cons part [] = (part, [], refl)
split_from-cons part (c ∷ s) = elim (Bool-cases (c == colon)) [
  | inl e ↦ (part, split_from [] s, ground arith)
  | inr e ↦ let (k, ks, p) = split_from-cons (part ++ c ∷ []) s in (k, ks, ground (arith, p))
]

split_from-colon :
    (part : Text) (c : ℕ) (s : Text)
    → (c == colon) ≡ true
    → split_from part (c ∷ s) ≡ part ∷ split_from [] s
unfolding split_from
split_from-colon part c s e = rw e

split_from-other :
    (part : Text) (c : ℕ) (s : Text)
    → (c == colon) ≡ false
    → split_from part (c ∷ s) ≡ split_from (part ++ c ∷ []) s
unfolding split_from
split_from-other part c s e = rw e

join-cons : (k : Text) (ks : List Text) → ks ≢ [] → join (k ∷ ks) ≡ k ++ colon ∷ join ks
unfolding join
join-cons k [] h = absurd (h refl)
join-cons k (l ∷ ks) h = refl

join-split_from : (part s : Text) → join (split_from part s) ≡ part ++ s
join-split_from part [] = unfold split_from join in sym (append-nil part)
join-split_from part (c ∷ s) = elim (Bool-cases (c == colon)) [
  | inl e ↦
      let (k, ks, p) = split_from-cons [] s in
      rw (
        split_from-colon part c s e,
        join-cons part (split_from [] s) (ground (arith, p)),
        join-split_from [] s,
        (==_iff c colon).0 e,
      )
  | inr e ↦
      rw (split_from-other part c s e)
        (join-split_from (part ++ c ∷ []) s ∙ append_assoc part (c ∷ []) s)
]

-- Splitting loses nothing: the parts joined again are the text that was split, whatever it is.
pub join-split_key : (t : Text) → join (split_key t) ≡ t
unfolding split_key
join-split_key t = join-split_from [] t

split_from-last : (part k : Text) → ColonFree k → split_from part k ≡ (part ++ k) ∷ []
unfolding split_from
split_from-last part [] h = rw append-nil
split_from-last part (c ∷ k) h = rw (h.0) (split_from-last (part ++ c ∷ []) k h.1 ∙ rw append_assoc)

split_from-first :
    (part k rest : Text)
    → ColonFree k
    → split_from part (k ++ colon ∷ rest) ≡ (part ++ k) ∷ split_from [] rest
unfolding split_from
split_from-first part [] rest h = rw append-nil
split_from-first part (c ∷ k) rest h =
    rw (h.0) (split_from-first (part ++ c ∷ []) k rest h.1 ∙ rw append_assoc)

-- A path of one key or more, none of which holds a colon, is what its chained key splits into.
pub split_key-join :
    (path : List Text) → path ≢ [] → All ColonFree path → split_key (join path) ≡ path
unfolding split_key join
split_key-join [] h _ = absurd (h refl)
split_key-join (k ∷ []) _ h = split_from-last [] k h.0
split_key-join (k ∷ l ∷ ks) _ h =
    split_from-first [] k (join (l ∷ ks)) h.0 ∙ ap (◌∷◌ k) (split_key-join (l ∷ ks) (cc) h.1)
