-- ===== src/Tests/Samples.antt =====
-- Instances of the parameters: a codec for the records of one place, arithmetic on whole numbers
-- in place of float64, texts of one letter.
use plexplore.Prelude.{
  ℕ, zero, suc, ◌+◌, ◌-◌, ◌*◌, ◌/◌, ◌≡◌, ◌≢◌, refl, ap, ◌∙◌, sym, subst, Bool, true, false, Option,
  none, some, [], ◌∷◌, ◌++◌, All, All-append, append_assoc, arith, ltb, leb, ◌==◌, ==_iff, ◌&&◌,
  if◌then◌else◌, str_eq, str_eq_iff, Bool-cases, inl, inr,
}
use plexplore.Float64.{FloatOps}
use plexplore.Ingest.Models.{CanonicalPoint, SpoolRecord, Bytes}
use plexplore.Ingest.Json.{Json, Lawful, Checkpoint, newline, IsObject}
use plexplore.Ingest.Hash.{Formats}
use plexplore.Text.{codes}

abbrev pub whole_numbers : FloatOps
whole_numbers = record {
  add = λ a b. a + b;
  sub = λ a b. a - b;
  mul = λ a b. a * b;
  div = λ a b. a / b;
  le = leb;
  lt = ltb;
  eq = λ a b. a == b;
  sin = λ a. a;
  cos = λ a. 1;
  sqrt = λ a. a;
  atan2 = λ a b. a;
  pow = λ a b. 1;
  round = λ a. a;
  pi = 3;
  of_ℕ = λ n. n;
}

abbrev pub short_formats : Formats
short_formats = record {
  sha256_hex = λ b. "hash";
  rfc3339_nano = λ t. codes "t";
  fixed5 = λ x. codes "x";
}

abbrev pub home : CanonicalPoint
home = record {
  user_id = "1";
  device_id = "phone";
  source_type = "owntracks";
  timestamp_utc = 1_000;
  lat = 50;
  lon = 8;
  altitude = none;
  accuracy = none;
  speed = none;
  heading = none;
  battery = none;
  motion_type = none;
  raw_payload = none;
  ingest_hash = "h";
}

abbrev pub at_home : ℕ → SpoolRecord
at_home seq = record {
  seq = seq;
  device_id = "phone";
  received_at = 2_000;
  point = home;
  checkpoint_only = false;
}

abbrev is_none {ℓ} : {A : Type ℓ} → Option A → Bool
is_none none = true
is_none (some a) = false

abbrev is_home : CanonicalPoint → Bool
is_home p =
    str_eq p.user_id "1"
    && (str_eq p.device_id "phone"
        && (str_eq p.source_type "owntracks"
            && (p.timestamp_utc == 1_000
                && (p.lat == 50
                    && (p.lon == 8
                        && (is_none p.altitude
                            && (is_none p.accuracy
                                && (is_none p.speed
                                    && (is_none p.heading
                                        && (is_none p.battery
                                            && (is_none p.motion_type
                                                && (is_none p.raw_payload
                                                    && str_eq p.ingest_hash "h"))))))))))))

abbrev is_at_home : SpoolRecord → Bool
is_at_home r =
    str_eq r.device_id "phone"
    && (r.received_at == 2_000 && (is_home r.point && (if r.checkpoint_only then false else true)))

and_left : (a b : Bool) → (a && b) ≡ true → a ≡ true
and_left true b h = refl
and_left false b h = h

and_right : (a b : Bool) → (a && b) ≡ true → b ≡ true
and_right true b h = h
and_right false b h = ground arith

is_none-none {ℓ} : {A : Type ℓ} (o : Option A) → is_none o ≡ true → o ≡ none
is_none-none none h = refl
is_none-none (some a) h = absurd (ground arith)

is_home-home : (p : CanonicalPoint) → is_home p ≡ true → p ≡ home
is_home-home p h =
    let h1 = and_right _ _ h in
    let h2 = and_right _ _ h1 in
    let h3 = and_right _ _ h2 in
    let h4 = and_right _ _ h3 in
    let h5 = and_right _ _ h4 in
    let h6 = and_right _ _ h5 in
    let h7 = and_right _ _ h6 in
    let h8 = and_right _ _ h7 in
    let h9 = and_right _ _ h8 in
    let h10 = and_right _ _ h9 in
    let h11 = and_right _ _ h10 in
    let h12 = and_right _ _ h11 in
    let h13 = and_right _ _ h12 in
    let e0 = (str_eq_iff p.user_id "1").0 (and_left _ _ h) in
    let e1 = (str_eq_iff p.device_id "phone").0 (and_left _ _ h1) in
    let e2 = (str_eq_iff p.source_type "owntracks").0 (and_left _ _ h2) in
    let e3 = (==_iff p.timestamp_utc 1_000).0 (and_left _ _ h3) in
    let e4 = (==_iff p.lat 50).0 (and_left _ _ h4) in
    let e5 = (==_iff p.lon 8).0 (and_left _ _ h5) in
    let e6 = is_none-none p.altitude (and_left _ _ h6) in
    let e7 = is_none-none p.accuracy (and_left _ _ h7) in
    let e8 = is_none-none p.speed (and_left _ _ h8) in
    let e9 = is_none-none p.heading (and_left _ _ h9) in
    let e10 = is_none-none p.battery (and_left _ _ h10) in
    let e11 = is_none-none p.motion_type (and_left _ _ h11) in
    let e12 = is_none-none p.raw_payload (and_left _ _ h12) in
    let e13 = (str_eq_iff p.ingest_hash "h").0 h13 in cc

not_marked : (b : Bool) → (if b then false else true) ≡ true → b ≡ false
not_marked true h = absurd (ground arith)
not_marked false h = refl

is_at_home-at_home : (r : SpoolRecord) → is_at_home r ≡ true → at_home r.seq ≡ r
is_at_home-at_home r h =
    let h1 = and_right _ _ h in
    let h2 = and_right _ _ h1 in
    let e0 = (str_eq_iff r.device_id "phone").0 (and_left _ _ h) in
    let e1 = (==_iff r.received_at 2_000).0 (and_left _ _ h1) in
    let e2 = is_home-home r.point (and_left _ _ h2) in
    let h3 = and_right _ _ h2 in let e3 = not_marked r.checkpoint_only h3 in cc

-- A number in unary, and the first number of a text that is not made of ones alone.
abbrev ones : ℕ → Bytes
ones zero = []
ones (suc n) = b'1' ∷ ones n

abbrev count : Bytes → ℕ
count [] = 0
count (c ∷ t) = let rest = count t in if c == b'1' then suc rest else 0

abbrev after : Bytes → Bytes
after [] = []
after (c ∷ t) = let rest = after t in if c == b'1' then rest else t

count-ones : (n c : ℕ) (t : Bytes) → c ≢ b'1' → count (ones n ++ c ∷ t) ≡ n
count-ones zero c t h = ground arith
count-ones (suc n) c t h = ap suc (count-ones n c t h)

after-ones : (n c : ℕ) (t : Bytes) → c ≢ b'1' → after (ones n ++ c ∷ t) ≡ t
after-ones zero c t h = ground arith
after-ones (suc n) c t h = after-ones n c t h

no_newline : (n : ℕ) → All (λ c. c ≢ newline) (ones n)
no_newline zero = tt
no_newline (suc n) = ((λ e. omega arith), no_newline n)

abbrev record_text : ℕ → Bytes
record_text n = b'{' ∷ ones n ++ b'}' ∷ []

abbrev checkpoint_text : ℕ → ℕ → Bytes
checkpoint_text n t = b'{' ∷ (ones n ++ b',' ∷ ones t) ++ b'}' ∷ []

abbrev read_record : Bytes → Option SpoolRecord
read_record [] = none
read_record (c ∷ []) = none
read_record (c ∷ d ∷ t) = some (at_home (count (d ∷ t)))

abbrev read_checkpoint_text : Bytes → Option Checkpoint
read_checkpoint_text [] = none
read_checkpoint_text (c ∷ t) =
    some (record { last_committed_seq = count t; updated_at_utc = count (after t) })

abbrev pub unary_json : Json
unary_json = record {
  marshal = λ r. if is_at_home r then some (record_text r.seq) else none;
  unmarshal = read_record;
  marshal_checkpoint = λ c. some (checkpoint_text c.last_committed_seq c.updated_at_utc);
  unmarshal_checkpoint = read_checkpoint_text;
}

record_text-read : (n : ℕ) → read_record (record_text n) ≡ some (at_home n)
record_text-read zero = refl
record_text-read (suc n) =
    ap (λ k. some (at_home (suc k))) (count-ones n b'}' [] (λ e. omega arith))

marshal-text :
    (r : SpoolRecord) (text : Bytes)
    → unary_json.marshal r ≡ some text
    → (is_at_home r ≡ true) × (record_text r.seq ≡ text)
marshal-text r text h = elim (Bool-cases (is_at_home r)) [
  | inl e ↦ (e, let f = rw e at h in cc)
  | inr e ↦ absurd (let f = rw e at h in cc)
]

some_same : (a : Bytes) {b : Bytes} → some a ≡ some b → a ≡ b
some_same a h = cc

checkpoint_text-read :
    (c : Checkpoint)
    → read_checkpoint_text (checkpoint_text c.last_committed_seq c.updated_at_utc) ≡ some c
checkpoint_text-read c =
    let n = c.last_committed_seq in
    let t = c.updated_at_utc in
    let regrouped = append_assoc (ones n) (b',' ∷ ones t) (b'}' ∷ []) in
    let first = count-ones n b',' (ones t ++ b'}' ∷ []) (λ e. omega arith) in
    let second =
      ap count (after-ones n b',' (ones t ++ b'}' ∷ []) (λ e. omega arith))
      ∙ count-ones t b'}' [] (λ e. omega arith) in
    rw (regrouped, first, second) refl

pub unary_json-Lawful : Lawful unary_json
unary_json-Lawful = record {
  record_object = λ r text h. subst IsObject (marshal-text r text h).1 (
    (ones r.seq, refl),
    (
      (λ e. omega arith),
      All-append (λ c. c ≢ newline) (ones r.seq) _ (no_newline r.seq) ((λ e. omega arith), tt),
    ),
  );
  record_back = λ r text h.
      let (home_is, shape) = marshal-text r text h in
      ap read_record (sym shape) ∙ record_text-read r.seq ∙ ap some (is_at_home-at_home r home_is);
  checkpoint_object = λ c text h.
      subst IsObject (some_same (checkpoint_text c.last_committed_seq c.updated_at_utc) h) (
        (ones c.last_committed_seq ++ b',' ∷ ones c.updated_at_utc, refl),
        (
          (λ e. omega arith),
          All-append (λ b. b ≢ newline) (ones c.last_committed_seq ++ b',' ∷ ones c.updated_at_utc)
              _
              (All-append (λ b. b ≢ newline) (ones c.last_committed_seq) _
                (no_newline c.last_committed_seq) ((λ e. omega arith), no_newline c.updated_at_utc))
              ((λ e. omega arith), tt),
        ),
      );
  checkpoint_back = λ c text h.
      ap read_checkpoint_text
        (sym (some_same (checkpoint_text c.last_committed_seq c.updated_at_utc) h))
      ∙ checkpoint_text-read c;
}
