-- ===== src/Server/Startup/Trimming.antt =====
-- strings.TrimSpace takes away all the white space at both ends, and nothing else.
use Prim.Native.Char.{Char, code}
use Prim.Native.String.{String, ◌++◌}
use text.Mathlib.TextLemmas.{nil-append, cons-append}
use distributed_game_of_life.Prelude.{
  ℕ, ◌≡◌, ◌↔◌, refl, sym, ap, ◌∙◌, arith, Bool, true, false, ◌&&◌, ◌||◌, ◌==◌, leb, List, [], ◌∷◌,
  contains, Bool-cases, inl, inr,
}
use distributed_game_of_life.Server.Startup.{is_space, trim_left, keep_char, trim_right, trim_space}

-- The characters that Unicode calls white space.
abbrev pub white : List ℕ
white =
    9 ∷ 10 ∷ 11 ∷ 12 ∷ 13 ∷ 32 ∷ 133 ∷ 160 ∷ 5760 ∷ 8192 ∷ 8193 ∷ 8194 ∷ 8195 ∷ 8196 ∷ 8197 ∷ 8198
    ∷ 8199 ∷ 8200 ∷ 8201 ∷ 8202 ∷ 8232 ∷ 8233 ∷ 8239 ∷ 8287 ∷ 12288 ∷ []

abbrev pub is_white : Char → Bool
is_white c = contains (code c) white

abbrev pub all_white : String → Bool
all_white String.[] = true
all_white (String.◌∷◌ c s) = is_white c && all_white s

abbrev pub begins_white : String → Bool
begins_white String.[] = false
begins_white (String.◌∷◌ c s) = is_white c

abbrev pub ends_white : String → Bool
ends_white String.[] = false
ends_white (String.◌∷◌ c String.[]) = is_white c
ends_white (String.◌∷◌ c (String.◌∷◌ d s)) = ends_white (String.◌∷◌ d s)

-- The text is what is left of the other one without the white space around it.
pub record IsTrimmed (raw text : String) : Type 0 where
  pub before : String
  pub after : String
  pub whole : raw ≡ before ++ (text ++ after)
  pub white_before : all_white before ≡ true
  pub white_after : all_white after ≡ true
  pub begins : begins_white text ≡ false
  pub ends : ends_white text ≡ false

white_range :
    (n : ℕ)
    → (leb 9 n && leb n 13
        || n == 32
        || n == 133
        || n == 160
        || n == 5760
        || leb 8192 n && leb n 8202
        || n == 8232
        || n == 8233
        || n == 8239
        || n == 8287
        || n == 12288)
      ≡ contains n white
white_range n = ground arith

is_space-is_white : (c : Char) → is_space c ≡ is_white c
is_space-is_white c = white_range (code c)

-- What trim_left takes away.
record IsLeftPart (s rest : String) : Type 0 where
  taken : String
  whole : s ≡ taken ++ rest
  white_taken : all_white taken ≡ true
  begins : begins_white rest ≡ false

trim_left-IsLeftPart : (s : String) → IsLeftPart s (trim_left s)
unfolding trim_left
trim_left-IsLeftPart String.[] = record {
  taken = String.[];
  whole = sym (nil-append String.[]);
  white_taken = refl;
  begins = refl;
}
trim_left-IsLeftPart (String.◌∷◌ c s) =
    let rest = trim_left-IsLeftPart s in
    elim (Bool-cases (is_white c)) [
      | inl space ↦
          rw (is_space-is_white c, space)
            (record {
              taken = String.◌∷◌ c rest.taken;
              whole = ap (String.◌∷◌ c) rest.whole ∙ sym (cons-append c rest.taken (trim_left s));
              white_taken = rw space (rest.white_taken);
              begins = rest.begins;
            })
      | inr other ↦
          rw (is_space-is_white c, other)
            (record {
              taken = String.[];
              whole = sym (nil-append (String.◌∷◌ c s));
              white_taken = refl;
              begins = other;
            })
    ]

-- What trim_right takes away.
record IsRightPart (s rest : String) : Type 0 where
  taken : String
  whole : s ≡ rest ++ taken
  white_taken : all_white taken ≡ true
  ends : ends_white rest ≡ false

keep_char-IsRightPart :
    (c : Char) (s rest : String)
    → IsRightPart s rest
    → IsRightPart (String.◌∷◌ c s) (keep_char c rest)
keep_char-IsRightPart c s (String.◌∷◌ d t) p = record {
  taken = p.taken;
  whole = ap (String.◌∷◌ c) p.whole ∙ sym (cons-append c (String.◌∷◌ d t) p.taken);
  white_taken = p.white_taken;
  ends = p.ends;
}
keep_char-IsRightPart c s String.[] p = elim (Bool-cases (is_white c)) [
  | inl space ↦
      rw (is_space-is_white c, space)
        (record {
          taken = String.◌∷◌ c p.taken;
          whole =
              ap (String.◌∷◌ c) (p.whole ∙ nil-append p.taken)
              ∙ sym (nil-append (String.◌∷◌ c p.taken));
          white_taken = rw space (p.white_taken);
          ends = refl;
        })
  | inr other ↦
      rw (is_space-is_white c, other)
        (record {
          taken = p.taken;
          whole = ap (String.◌∷◌ c) p.whole ∙ sym (cons-append c String.[] p.taken);
          white_taken = p.white_taken;
          ends = other;
        })
]

trim_right-IsRightPart : (s : String) → IsRightPart s (trim_right s)
unfolding trim_right
trim_right-IsRightPart String.[] = record {
  taken = String.[];
  whole = sym (nil-append String.[]);
  white_taken = refl;
  ends = refl;
}
trim_right-IsRightPart (String.◌∷◌ c s) =
    keep_char-IsRightPart c s (trim_right s) (trim_right-IsRightPart s)

-- A text that does not begin with white space still does not when its end is trimmed.
begins_white-keep_char :
    (c : Char) (rest : String) → is_white c ≡ false → begins_white (keep_char c rest) ≡ false
begins_white-keep_char c (String.◌∷◌ d t) other = other
begins_white-keep_char c String.[] other = rw (is_space-is_white c, other) other

begins_white-trim_right :
    (s : String) → begins_white s ≡ false → begins_white (trim_right s) ≡ false
unfolding trim_right
begins_white-trim_right String.[] h = refl
begins_white-trim_right (String.◌∷◌ c s) h = begins_white-keep_char c (trim_right s) h

trim_space-IsTrimmed : (s : String) → IsTrimmed s (trim_space s)
trim_space-IsTrimmed s =
    let front = trim_left-IsLeftPart s in
    let back = trim_right-IsRightPart (trim_left s) in
    record {
      before = front.taken;
      after = back.taken;
      whole = front.whole ∙ ap (λ t. front.taken ++ t) back.whole;
      white_before = front.white_taken;
      white_after = back.white_taken;
      begins = begins_white-trim_right (trim_left s) front.begins;
      ends = back.ends;
    }

both_true : (a b : Bool) → (a && b) ≡ true → (a ≡ true) × (b ≡ true)
both_true a b h = ground arith

trim_left-white : (l s : String) → all_white l ≡ true → trim_left (l ++ s) ≡ trim_left s
unfolding trim_left
trim_left-white String.[] s h = rw (nil-append s) refl
trim_left-white (String.◌∷◌ c l) s h =
    let parts = both_true (is_white c) (all_white l) h in
    rw (cons-append c l s, is_space-is_white c, parts.0) (trim_left-white l s parts.1)

trim_right-white : (r : String) → all_white r ≡ true → trim_right r ≡ String.[]
unfolding trim_right
trim_right-white String.[] h = refl
trim_right-white (String.◌∷◌ c r) h =
    let parts = both_true (is_white c) (all_white r) h in
    rw (trim_right-white r parts.1, is_space-is_white c, parts.0) refl

trim_right-ends :
    (t r : String) → all_white r ≡ true → ends_white t ≡ false → trim_right (t ++ r) ≡ t
unfolding trim_right
trim_right-ends String.[] r h e = rw (nil-append r) (trim_right-white r h)
trim_right-ends (String.◌∷◌ c String.[]) r h e =
    rw (cons-append c String.[] r, nil-append r, trim_right-white r h, is_space-is_white c, e) refl
trim_right-ends (String.◌∷◌ c (String.◌∷◌ d t)) r h e =
    rw (cons-append c (String.◌∷◌ d t) r, trim_right-ends (String.◌∷◌ d t) r h e) refl

trim_left-all : (r : String) → all_white r ≡ true → trim_left r ≡ String.[]
unfolding trim_left
trim_left-all String.[] h = refl
trim_left-all (String.◌∷◌ c r) h =
    let parts = both_true (is_white c) (all_white r) h in
    rw (is_space-is_white c, parts.0) (trim_left-all r parts.1)

trim_left-begins :
    (t r : String)
    → all_white r ≡ true
    → begins_white t ≡ false
    → trim_right (trim_left (t ++ r)) ≡ trim_right (t ++ r)
unfolding trim_left trim_right
trim_left-begins String.[] r h b = rw (nil-append r, trim_left-all r h, trim_right-white r h) refl
trim_left-begins (String.◌∷◌ c t) r h b = rw (cons-append c t r, is_space-is_white c, b) refl

-- There is one way to trim a text, and TrimSpace is that one.
pub trim_space_iff : (raw text : String) → (trim_space raw ≡ text) ↔ IsTrimmed raw text
trim_space_iff raw text = (
  λ h. rw h at (trim_space-IsTrimmed raw),
  λ t.
      ap trim_space t.whole
      ∙ ap trim_right (trim_left-white t.before (text ++ t.after) t.white_before)
      ∙ trim_left-begins text t.after t.white_after t.begins
      ∙ trim_right-ends text t.after t.white_after t.ends,
)
