-- ===== src/Storage/Keys.antt =====
-- chunkKey of storage/redis.go: the text "chunk:X:Y", as a list of its bytes.
use distributed_game_of_life.Prelude.{
  ℕ, zero, suc, ◌+◌, ◌-◌, ◌*◌, ◌/◌, ◌%◌, ◌≡◌, ◌↔◌, ◌≢◌, ◌≤◌, ◌<◌, refl, sym, ap, ap₂, ◌∙◌, arith,
  Bool, true, false, ◌&&◌, ◌==◌, Bool_ext, Bool-cases, ltb, if◌then◌else◌, List, [], ◌∷◌, ◌++◌,
  Option, some, inl, inr,
}
use distributed_game_of_life.Prelude.Int.{ℤ, pos, negsuc}
use distributed_game_of_life.Simulation.Chunk.{ChunkId, ChunkAlias}
use distributed_game_of_life.Simulation.ChunkMap.{id_eq, id_eq_iff}
use distributed_game_of_life.Storage.{Backend, LoadAlias, Reply, found}

-- The digits of a number; as many rounds as its size are enough.
unfoldable pub digits : ℕ → ℕ → List ℕ
digits zero n = (b'0' + n % 10) ∷ []
digits (suc fuel) n =
    let rest = digits fuel (n / 10) in
    if ltb n 10 then (b'0' + n % 10) ∷ [] else rest ++ (b'0' + n % 10) ∷ []

-- %d
abbrev pub decimal : ℤ → List ℕ
decimal (pos n) = digits n n
decimal (negsuc n) = b'-' ∷ digits (suc n) (suc n)

abbrev pub chunk_prefix : List ℕ
chunk_prefix = b'c' ∷ b'h' ∷ b'u' ∷ b'n' ∷ b'k' ∷ b':' ∷ []

unfoldable pub chunk_key : ChunkId → List ℕ
unfolding digits
chunk_key id = chunk_prefix ++ (decimal id.x ++ b':' ∷ decimal id.y)

-- == on texts
abbrev pub text_eq : List ℕ → List ℕ → Bool
text_eq [] [] = true
text_eq (a ∷ s) (b ∷ t) = a == b && text_eq s t
text_eq _ _ = false

text_eq_iff : (s t : List ℕ) → (text_eq s t ≡ true) ↔ (s ≡ t)
text_eq_iff [] [] = (λ h. refl, λ h. refl)
text_eq_iff [] (b ∷ t) = ground arith
text_eq_iff (a ∷ s) [] = ground arith
text_eq_iff (a ∷ s) (b ∷ t) = ground (arith, text_eq_iff s t)

-- The number that digits stand for, with the digits before them.
abbrev value : ℕ → List ℕ → ℕ
value n [] = n
value n (c ∷ s) = value (n * 10 + (c - b'0')) s

value-append : (n c : ℕ) (s : List ℕ) → value n (s ++ c ∷ []) ≡ value n s * 10 + (c - b'0')
value-append n c [] = refl
value-append n c (d ∷ s) = value-append (n * 10 + (d - b'0')) c s

value-digits : (fuel n : ℕ) → n ≤ fuel → value 0 (digits fuel n) ≡ n
unfolding digits
value-digits zero n h = omega (arith, h)
value-digits (suc fuel) n h = elim (Bool-cases (ltb n 10)) [
  | inl small ↦ let below : n < 10 = ground (arith, small) in rw small (omega (arith, below))
  | inr large ↦
      rw
        (
          large,
          value-append 0 (b'0' + n % 10) (digits fuel (n / 10)),
          value-digits fuel (n / 10) (ground (arith, large, h)),
        )
        (omega arith)
]

abbrev AllDigits : List ℕ → Type 0
AllDigits [] = Unit {0}
AllDigits (c ∷ s) = (b'0' ≤ c) × (c ≤ b'9') × AllDigits s

AllDigits-append :
    (s : List ℕ) (c : ℕ) → AllDigits s → b'0' ≤ c → c ≤ b'9' → AllDigits (s ++ c ∷ [])
AllDigits-append [] c all low high = (low, high, tt)
AllDigits-append (d ∷ s) c all low high = (all.0, all.1, AllDigits-append s c all.2 low high)

digits-AllDigits : (fuel n : ℕ) → AllDigits (digits fuel n)
unfolding digits
digits-AllDigits zero n = (omega arith, omega arith, tt)
digits-AllDigits (suc fuel) n = elim (Bool-cases (ltb n 10)) [
  | inl small ↦ rw small (omega arith, omega arith, tt)
  | inr large ↦ rw large (
      AllDigits-append (digits fuel (n / 10)) (b'0' + n % 10) (digits-AllDigits fuel (n / 10))
        (omega arith) (omega arith))
]

digits-injective : (m n : ℕ) → digits m m ≡ digits n n → m ≡ n
digits-injective m n same =
    sym (value-digits m m (omega arith)) ∙ ap (value 0) same ∙ value-digits n n (omega arith)

head-eq : {a b : ℕ} {s t : List ℕ} → a ∷ s ≡ b ∷ t → a ≡ b
head-eq e = cc e

-- No text of digits begins with a sign.
digits-ne-signed : (s t : List ℕ) → AllDigits s → s ≢ b'-' ∷ t
digits-ne-signed [] t all e = absurd (cc e)
digits-ne-signed (c ∷ s) t all e = absurd (omega (arith, head-eq e, all.0))

tail-eq : (a b : ℕ) (s t : List ℕ) → a ∷ s ≡ b ∷ t → s ≡ t
tail-eq a b s t e = cc e

decimal-injective : (x y : ℤ) → decimal x ≡ decimal y → x ≡ y
decimal-injective (pos m) (pos n) e = ap pos (digits-injective m n e)
decimal-injective (pos m) (negsuc n) e =
    absurd (digits-ne-signed (digits m m) (digits (suc n) (suc n)) (digits-AllDigits m m) e)
decimal-injective (negsuc m) (pos n) e =
    absurd (digits-ne-signed (digits n n) (digits (suc m) (suc m)) (digits-AllDigits n n) (sym e))
decimal-injective (negsuc m) (negsuc n) e =
    let same = digits-injective (suc m) (suc n) (tail-eq b'-' b'-' _ _ e) in
    ap negsuc (omega (arith, same))

-- The byte is not in the text.
abbrev Without : ℕ → List ℕ → Type 0
Without c [] = Unit {0}
Without c (d ∷ s) = (d ≢ c) × Without c s

AllDigits-Without : (s : List ℕ) → AllDigits s → Without b':' s
AllDigits-Without [] all = tt
AllDigits-Without (c ∷ s) all = (λ e. absurd (omega (arith, e, all.1)), AllDigits-Without s all.2)

decimal-Without : (x : ℤ) → Without b':' (decimal x)
decimal-Without (pos n) = AllDigits-Without (digits n n) (digits-AllDigits n n)
decimal-Without (negsuc n) = (
  λ e. absurd (omega (arith, e)),
  AllDigits-Without (digits (suc n) (suc n)) (digits-AllDigits (suc n) (suc n)),
)

-- A text is split at its first separator in one way.
split_once :
    (c : ℕ) (s s' t t' : List ℕ)
    → Without c s
    → Without c s'
    → s ++ c ∷ t ≡ s' ++ c ∷ t'
    → (s ≡ s') × (t ≡ t')
split_once c [] [] t t' w w' e = (refl, tail-eq c c t t' e)
split_once c [] (d ∷ s') t t' w w' e = absurd (w'.0 (sym (head-eq e)))
split_once c (d ∷ s) [] t t' w w' e = absurd (w.0 (head-eq e))
split_once c (d ∷ s) (d' ∷ s') t t' w w' e =
    let rest = split_once c s s' t t' w.1 w'.1 (tail-eq d d' _ _ e) in
    (ap₂ (λ a l. a ∷ l) (head-eq e) rest.0, rest.1)

-- Two chunks have the same key just if they have the same ID.
pub text_eq-chunk_key : (a b : ChunkId) → text_eq (chunk_key a) (chunk_key b) ≡ id_eq a b
unfolding chunk_key
text_eq-chunk_key a b =
    let coordinates = decimal a.x ++ b':' ∷ decimal a.y in
    let others = decimal b.x ++ b':' ∷ decimal b.y in
    Bool_ext (text_eq (chunk_key a) (chunk_key b)) (id_eq a b)
      (λ same.
        let parts =
          split_once b':' (decimal a.x) (decimal b.x) (decimal a.y) (decimal b.y)
            (decimal-Without a.x) (decimal-Without b.x) ((text_eq_iff coordinates others).0 same) in
        let x = decimal-injective a.x b.x parts.0 in
        let y = decimal-injective a.y b.y parts.1 in
        (id_eq_iff a b).1 (ap₂ (λ x y. record { x = x; y = y }) x y))
      (λ same. rw ((id_eq_iff a b).0 same) ((text_eq_iff others others).1 refl))

-- Redis with texts for keys, and the JSON codec.
pub record TextBackend : Type 1 where
  pub Data : Type 0
  pub Store : Type 0
  pub marshal : ChunkAlias → Option Data
  pub unmarshal : Data → Option LoadAlias
  pub get : Store → List ℕ → Reply Data
  pub set : Store → List ℕ → Data → Option Store
  pub unmarshal-marshal :
      (a : ChunkAlias) (d : Data)
      → marshal a ≡ some d
      → unmarshal d ≡ some (record { x = a.x; y = a.y; cells = a.cells })
  pub get-set :
      (s t : Store) (k j : List ℕ) (d : Data)
      → set s k d ≡ some t
      → get t j ≡ (if text_eq k j then found d else get s j)

-- The backend of SaveChunk and LoadChunk, which use the keys of chunkKey.
abbrev pub backend_of : TextBackend → Backend
backend_of r = record {
  Data = r.Data;
  Store = r.Store;
  marshal = r.marshal;
  unmarshal = r.unmarshal;
  get = λ s id. r.get s (chunk_key id);
  set = λ s id. r.set s (chunk_key id);
  unmarshal-marshal = r.unmarshal-marshal;
  get-set = λ s t id j d saved.
      r.get-set s t (chunk_key id) (chunk_key j) d saved
      ∙ ap (λ b. if b then found d else r.get s (chunk_key j)) (text_eq-chunk_key id j);
}
