-- ===== src/Simulator/Flags/Written.antt =====
-- Sensor types as they may be written on the command line.
use Prim.Native.Char.{Char, code}
use mathlib.Core.Path.{ap₂}
use sentinelstream.Prelude.{
  ℕ, Bool, true, false, ◌&&◌, ◌==◌, List, [], ◌∷◌, map, String, if◌then◌else◌, ◌≡◌, refl, ap, ◌∙◌,
  arith, All,
}
use sentinelstream.Simulator.Flags.{
  is_space, split_commas, trim_left, trim_right, trim_space, sensor_types,
}

-- Every character passes the test.
unfoldable pub all_chars : (ℕ → Bool) → String → Bool
all_chars p String.[] = true
all_chars p (String.◌∷◌ c s) = p (code c) && all_chars p s

abbrev pub in_word : ℕ → Bool
unfolding is_space
in_word c = if is_space c then false else if c == b',' then false else true

-- One text behind another.
infixr 65 ◌++◌
unfoldable pub ◌++◌ : String → String → String
String.[] ++ t = t
String.◌∷◌ c s ++ t = String.◌∷◌ c (s ++ t)

-- A type with the space around it.
pub record Padded : Type 0 where
  pub before : String
  pub word : String
  pub behind : String

pub record IsPadded (p : Padded) : Type 0 where
  pub blank_before : all_chars is_space p.before ≡ true
  pub no_blank : all_chars in_word p.word ≡ true
  pub blank_behind : all_chars is_space p.behind ≡ true

abbrev pub spelled : Padded → String
spelled p = p.before ++ (p.word ++ p.behind)

-- The types with commas between them.
unfoldable pub written : Padded → List Padded → String
written p [] = spelled p
written p (q ∷ ps) = spelled p ++ String.◌∷◌ "," (written q ps)

abbrev no_comma : ℕ → Bool
no_comma c = if c == b',' then false else true

no_comma-false : (c : ℕ) → no_comma c ≡ true → (c == b',') ≡ false
no_comma-false c h = ground arith

space-ne-comma : (c : ℕ) → is_space c ≡ true → no_comma c ≡ true
unfolding is_space
space-ne-comma c h = ground arith

in_word-ne-comma : (c : ℕ) → in_word c ≡ true → (no_comma c ≡ true) × (is_space c ≡ false)
unfolding in_word
in_word-ne-comma c h = ground arith

all_chars-cons :
    (p : ℕ → Bool) (c : Char) (s : String)
    → all_chars p (String.◌∷◌ c s) ≡ true
    → (p (code c) ≡ true) × (all_chars p s ≡ true)
unfolding all_chars
all_chars-cons p c s h = ground arith

all_chars-append :
    (p : ℕ → Bool) (s t : String)
    → all_chars p s ≡ true
    → all_chars p t ≡ true
    → all_chars p (s ++ t) ≡ true
unfolding all_chars ◌++◌
all_chars-append p String.[] t h k = k
all_chars-append p (String.◌∷◌ c s) t h k = ground (arith, all_chars-append p s t)

all_chars_mono :
    (p q : ℕ → Bool)
    → ((c : ℕ) → p c ≡ true → q c ≡ true)
    → (s : String) → all_chars p s ≡ true
    → all_chars q s ≡ true
unfolding all_chars
all_chars_mono p q f String.[] h = refl
all_chars_mono p q f (String.◌∷◌ c s) h = ground (arith, f (code c), all_chars_mono p q f s)

trim_left-blank :
    (pad s : String) → all_chars is_space pad ≡ true → trim_left (pad ++ s) ≡ trim_left s
unfolding all_chars trim_left ◌++◌
trim_left-blank String.[] s h = refl
trim_left-blank (String.◌∷◌ c pad) s h = ground (arith, trim_left-blank pad s)

trim_left_all : (pad : String) → all_chars is_space pad ≡ true → trim_left pad ≡ String.[]
unfolding all_chars trim_left
trim_left_all String.[] h = refl
trim_left_all (String.◌∷◌ c pad) h =
    let (blank, rest) = all_chars-cons is_space c pad h in rw blank (trim_left_all pad rest)

trim_right-blank : (pad : String) → all_chars is_space pad ≡ true → trim_right pad ≡ String.[]
unfolding all_chars trim_right
trim_right-blank String.[] h = refl
trim_right-blank (String.◌∷◌ c pad) h =
    let (blank, rest) = all_chars-cons is_space c pad h in rw (trim_right-blank pad rest) (rw blank)

trim_right-word :
    (w pad : String)
    → all_chars in_word w ≡ true
    → all_chars is_space pad ≡ true
    → trim_right (w ++ pad) ≡ w
unfolding all_chars trim_right ◌++◌
trim_right-word String.[] pad h k = trim_right-blank pad k
trim_right-word (String.◌∷◌ c w) pad h k =
    let (visible, rest) = all_chars-cons in_word c w h in
    rw (trim_right-word w pad rest k) (rw (in_word-ne-comma (code c) visible).1)

trim_word :
    (w pad : String)
    → all_chars in_word w ≡ true
    → all_chars is_space pad ≡ true
    → trim_right (trim_left (w ++ pad)) ≡ w
unfolding all_chars trim_left trim_right ◌++◌
trim_word String.[] pad h k = rw (trim_left_all pad k) refl
trim_word (String.◌∷◌ c w) pad h k =
    let (visible, rest) = all_chars-cons in_word c w h in
    rw (in_word-ne-comma (code c) visible).1 (trim_right-word (String.◌∷◌ c w) pad h k)

split_commas-last : (s : String) → all_chars no_comma s ≡ true → split_commas s ≡ s ∷ []
unfolding all_chars split_commas
split_commas-last String.[] h = refl
split_commas-last (String.◌∷◌ c s) h =
    let (plain, rest) = all_chars-cons no_comma c s h in
    rw (split_commas-last s rest) (rw (no_comma-false (code c) plain))

split_commas-cons :
    (s t : String)
    → all_chars no_comma s ≡ true
    → split_commas (s ++ String.◌∷◌ "," t) ≡ s ∷ split_commas t
unfolding all_chars split_commas ◌++◌
split_commas-cons String.[] t h = refl
split_commas-cons (String.◌∷◌ c s) t h =
    let (plain, rest) = all_chars-cons no_comma c s h in
    rw (split_commas-cons s t rest) (rw (no_comma-false (code c) plain))

spelled-no_comma : (p : Padded) → IsPadded p → all_chars no_comma (spelled p) ≡ true
spelled-no_comma p v =
    let plain = all_chars_mono is_space no_comma space-ne-comma in
    let word =
      all_chars_mono in_word no_comma (λ c h. (in_word-ne-comma c h).0) p.word v.no_blank in
    all_chars-append no_comma p.before (p.word ++ p.behind) (plain p.before v.blank_before)
      (all_chars-append no_comma p.word p.behind word (plain p.behind v.blank_behind))

trim_space-spelled : (p : Padded) → IsPadded p → trim_space (spelled p) ≡ p.word
unfolding trim_space
trim_space-spelled p v =
    ap trim_right (trim_left-blank p.before (p.word ++ p.behind) v.blank_before)
    ∙ trim_word p.word p.behind v.no_blank v.blank_behind

-- Types of the flag that are written with commas between them, none of which holds a comma or white
-- space, are read back as they are, whatever white space stands around them.
pub sensor_types-written :
    (p : Padded) (ps : List Padded)
    → IsPadded p
    → All IsPadded ps
    → sensor_types (written p ps) ≡ map (λ q. q.word) (p ∷ ps)
unfolding sensor_types written
sensor_types-written p [] v vs =
    ap (map trim_space) (split_commas-last (spelled p) (spelled-no_comma p v))
    ∙ ap (λ w. w ∷ []) (trim_space-spelled p v)
sensor_types-written p (q ∷ ps) v (w, vs) =
    ap (map trim_space) (split_commas-cons (spelled p) (written q ps) (spelled-no_comma p v))
    ∙ ap₂ (λ x xs. x ∷ xs) (trim_space-spelled p v) (sensor_types-written q ps w vs)
