-- ===== src/Text/Trim.antt =====
-- Trimming and splitting of texts that start and end with plain bytes.
use mathlib.Core.List.{reverse, reverse-append, reverse-cons, reverse-reverse}
use plexplore.Prelude.{
  ℕ, zero, suc, ◌≡◌, ◌≢◌, refl, sym, ap, subst, inl, inr, Bool-cases, ==_iff, ◌∙◌, none, some, List,
  [], ◌∷◌, ◌++◌, arith, length, All, All-append_right, true, ◌==◌, append_assoc, append-nil,
}
use plexplore.Ingest.Models.{Bytes}
use plexplore.Text.{
  strip_prefix, strip_any, trim_left, trim_space, spaces, spaces_reversed, has_prefix, trim_prefix,
  has_suffix, trim_suffix, after_slash, drop_slashes, base_of, base,
}

trim_left-none :
    (fuel : ℕ) (table : List Bytes) (s : Bytes)
    → strip_any table s ≡ none
    → trim_left fuel table s ≡ s
unfolding trim_left
trim_left-none zero table s h = refl
trim_left-none (suc fuel) table s h = rw (h, trim_left)

trim_left-some :
    (fuel : ℕ) (table : List Bytes) (s rest : Bytes)
    → strip_any table s ≡ some rest
    → trim_left (suc fuel) table s ≡ trim_left fuel table rest
unfolding trim_left
trim_left-some fuel table s rest h = rw (h, trim_left)

-- A text whose first byte starts no white space and whose last byte ends none is not trimmed.
pub trim_space_plain :
    (c d : ℕ) (s : Bytes)
    → ((t : Bytes) → strip_any spaces (c ∷ t) ≡ none)
    → ((t : Bytes) → strip_any spaces_reversed (d ∷ t) ≡ none)
    → trim_space (c ∷ s ++ d ∷ []) ≡ c ∷ s ++ d ∷ []
unfolding trim_space
trim_space_plain c d s first last =
    let x = c ∷ s ++ d ∷ [] in
    let kept_left = trim_left-none (length x) spaces x (first (s ++ d ∷ [])) in
    let kept_right = trim_left-none (length x) spaces_reversed (reverse x) (
      subst (λ z. strip_any spaces_reversed z ≡ none) (sym (reverse-append (c ∷ s) (d ∷ [])))
        (last (reverse (c ∷ s)))) in
    ap (λ l. reverse (trim_left (length l) spaces_reversed (reverse l))) kept_left
    ∙ ap reverse kept_right
    ∙ reverse-reverse x

strip_prefix-append : (p s : Bytes) → strip_prefix p (p ++ s) ≡ some s
unfolding strip_prefix
strip_prefix-append [] s = refl
strip_prefix-append (c ∷ p) s = ground (arith, strip_prefix-append p s)

pub has_prefix-append : (p s : Bytes) → has_prefix (p ++ s) p ≡ true
unfolding has_prefix
has_prefix-append p s = rw (strip_prefix-append p s, has_prefix)

pub trim_prefix-append : (p s : Bytes) → trim_prefix (p ++ s) p ≡ s
unfolding trim_prefix
trim_prefix-append p s = rw (strip_prefix-append p s, trim_prefix)

pub has_suffix-append : (p s : Bytes) → has_suffix (s ++ p) p ≡ true
unfolding has_suffix
has_suffix-append p s = rw (reverse-append s p) (has_prefix-append (reverse p) (reverse s))

pub trim_suffix-append : (p s : Bytes) → trim_suffix (s ++ p) p ≡ s
unfolding trim_suffix
trim_suffix-append p s =
    rw (reverse-append s p, trim_prefix-append (reverse p) (reverse s)) (reverse-reverse s)

after_slash_plain :
    (part s : Bytes) → All (λ c. c ≢ b'/') s → after_slash part s ≡ reverse part ++ s
unfolding after_slash
after_slash_plain part [] h = sym (append-nil (reverse part))
after_slash_plain part (c ∷ s) h = elim (Bool-cases (c == b'/')) [
  | inl slash ↦ absurd (h.0 ((==_iff c b'/').0 slash))
  | inr plain ↦
      rw (plain, after_slash)
        (after_slash_plain (c ∷ part) s h.1
          ∙ ap (λ l. l ++ s) (reverse-cons c part)
          ∙ append_assoc (reverse part) (c ∷ []) s)
]

drop_slashes_plain : (d : ℕ) (s : Bytes) → d ≢ b'/' → drop_slashes (d ∷ s) ≡ d ∷ s
unfolding drop_slashes
drop_slashes_plain d s h = elim (Bool-cases (d == b'/')) [
  | inl slash ↦ absurd (h ((==_iff d b'/').0 slash))
  | inr plain ↦ rw plain refl
]

-- A name with no slash is its own base.
pub base_plain :
    (c d : ℕ) (s : Bytes)
    → All (λ c. c ≢ b'/') (c ∷ s ++ d ∷ [])
    → base (c ∷ s ++ d ∷ []) ≡ c ∷ s ++ d ∷ []
unfolding base base_of
base_plain c d s h =
    let x = c ∷ s ++ d ∷ [] in
    let turned = reverse-append (c ∷ s) (d ∷ []) in
    let last = All-append_right (λ c. c ≢ b'/') (c ∷ s) (d ∷ []) h in
    ap (λ l. base_of (reverse (drop_slashes l))) turned
    ∙ ap (λ l. base_of (reverse l)) (drop_slashes_plain d (reverse (c ∷ s)) last.0)
    ∙ ap (λ l. base_of (reverse l)) (sym turned)
    ∙ ap base_of (reverse-reverse x)
    ∙ after_slash_plain [] x h

-- One byte of white space after such a text is trimmed.
pub trim_space_line :
    (c d n : ℕ) (s : Bytes)
    → ((t : Bytes) → strip_any spaces (c ∷ t) ≡ none)
    → ((t : Bytes) → strip_any spaces_reversed (n ∷ t) ≡ some t)
    → ((t : Bytes) → strip_any spaces_reversed (d ∷ t) ≡ none)
    → trim_space ((c ∷ s ++ d ∷ []) ++ n ∷ []) ≡ c ∷ s ++ d ∷ []
unfolding trim_space
trim_space_line c d n s first space last =
    let x = c ∷ s ++ d ∷ [] in
    let y = x ++ n ∷ [] in
    let fuel = length ((s ++ d ∷ []) ++ n ∷ []) in
    let kept_left = trim_left-none (length y) spaces y (first ((s ++ d ∷ []) ++ n ∷ [])) in
    let kept_right = trim_left-none fuel spaces_reversed (reverse x) (
      subst (λ z. strip_any spaces_reversed z ≡ none) (sym (reverse-append (c ∷ s) (d ∷ [])))
        (last (reverse (c ∷ s)))) in
    ap (λ l. reverse (trim_left (length l) spaces_reversed (reverse l))) kept_left
    ∙ ap (λ z. reverse (trim_left (suc fuel) spaces_reversed z)) (reverse-append x (n ∷ []))
    ∙ ap reverse
        (trim_left-some fuel spaces_reversed (n ∷ reverse x) (reverse x) (space (reverse x)))
    ∙ ap reverse kept_right
    ∙ reverse-reverse x
