-- ===== src/Fs/Bytes.antt =====
-- Bytes: a bit of a byte, and a word stored in four of them.
use Prim.Native.Nat.{bit_and, bit_or}
use slab_study.Common.{
  ℕ, ◌+◌, ◌-◌, ◌*◌, ◌^◌, ◌<◌, ◌≡◌, ◌≢◌, refl, arith, Option, some, none, find_index,
  find_index-none, Bool, true, false, ◌&&◌, not, ltb, ◌==◌, if◌then◌else◌,
}
use slab_study.Fs.{Block, get_word, put_word}

-- No value below `bound` fails a test, by a search for one.
unfoldable pub never_fails : ℕ → (ℕ → Bool) → Bool
never_fails bound test = elim (find_index (λ value. not (test value)) 0 bound) [
  | none ↦ true
  | some value ↦ false
]

pub never_fails_lem :
    (bound : ℕ) (test : ℕ → Bool) (value : ℕ)
    → never_fails bound test ≡ true
    → value < bound
    → test value ≡ true
unfolding never_fails
never_fails_lem bound test value searched below =
    let clean = ended (find_index (λ v. not (test v)) 0 bound) searched in
    ground (arith, find_index-none (λ v. not (test v)) 0 bound clean value)
  where
    ended : (r : Option ℕ) → (elim r [ none ↦ true | some v ↦ false ]) ≡ true → r ≡ none
    ended none e = refl
    ended (some v) e = absurd (cc e)

-- `x & (1 << k)` is not 0.
abbrev pub bit : ℕ → ℕ → Bool
bit x k = not (bit_and x (2 ^ k) == 0)

abbrev pub eqb : Bool → Bool → Bool
eqb true b = b
eqb false b = not b

-- The bits of a byte after `|= m` and after `&= ~m`.
abbrev bits_hold : ℕ → ℕ → ℕ → Bool
bits_hold x k j =
    (eqb (bit (bit_or x (2 ^ k)) j) (if j == k then true else bit x j)
      && eqb (bit (bit_and x (255 - 2 ^ k)) j) (if j == k then false else bit x j))
    && (ltb (bit_or x (2 ^ k)) 256 && ltb (bit_and x (255 - 2 ^ k)) 256)

bits_table : never_fails 256 (λ x. never_fails 8 (λ k. never_fails 8 (λ j. bits_hold x k j))) ≡ true
unfolding never_fails find_index
bits_table = refl

bits_checked : (x k j : ℕ) → x < 256 → k < 8 → j < 8 → bits_hold x k j ≡ true
bits_checked x k j lx lk lj =
    never_fails_lem 8 (bits_hold x k) j
      (never_fails_lem 8 (λ k. never_fails 8 (λ j. bits_hold x k j)) k
        (never_fails_lem 256 (λ x. never_fails 8 (λ k. never_fails 8 (λ j. bits_hold x k j))) x
          bits_table lx)
        lk)
      lj

pub bit-set :
    (x k j : ℕ)
    → x < 256
    → k < 8
    → j < 8
    → bit (bit_or x (2 ^ k)) j ≡ (if j == k then true else bit x j)
bit-set x k j lx lk lj = ground (arith, bits_checked x k j lx lk lj)

pub bit-clear :
    (x k j : ℕ)
    → x < 256
    → k < 8
    → j < 8
    → bit (bit_and x (255 - 2 ^ k)) j ≡ (if j == k then false else bit x j)
bit-clear x k j lx lk lj = ground (arith, bits_checked x k j lx lk lj)

pub byte_range :
    (x k : ℕ) → x < 256 → k < 8 → (bit_or x (2 ^ k) < 256) × (bit_and x (255 - 2 ^ k) < 256)
byte_range x k lx lk = ground (arith, bits_checked x k 0 lx lk (omega arith))

pub get-put_word : (a : Block) (k v : ℕ) → v < 2 ^ 32 → get_word (put_word k v a) k ≡ v
unfolding get_word put_word
get-put_word a k v l = ground arith

pub get-put_word_other :
    (a : Block) (k j v : ℕ) → j ≢ k → get_word (put_word k v a) j ≡ get_word a j
unfolding get_word put_word
get-put_word_other a k j v d = ground arith

pub put_word-byte : (a : Block) (k v i : ℕ) → a i < 256 → put_word k v a i < 256
unfolding put_word
put_word-byte a k v i l = ground arith

pub get_word-zero : (a : Block) (k : ℕ) → ((i : ℕ) → a i ≡ 0) → get_word a k ≡ 0
unfolding get_word
get_word-zero a k z = omega (arith, z (4 * k), z (4 * k + 1), z (4 * k + 2), z (4 * k + 3))
