-- ===== src/Loader/Copies.antt =====
-- What `memcpy` and `memset` leave in the process's memory.
use aarch64_emu.Base.{ℕ, zero, suc, ◌+◌, ◌-◌, ◌≤◌, ◌<◌, ◌≡◌, refl, ◌∙◌, arith, ◌⊎◌, inl, inr}
use aarch64_emu.Base.{Bool, ◌&&◌, some, ltb, leb, ◌==◌, if◌then◌else◌, update, ok, Bool-cases}
use aarch64_emu.Loader.Memory.{Host, copy, memcpy, memset}

abbrev pub HasByte : Host → ℕ → Type 0
HasByte h q = (b : ℕ) × (h q ≡ some b)

abbrev pub HasBytes : Host → ℕ → ℕ → Type 0
HasBytes h p n = (q : ℕ) → p ≤ q → q < p + n → HasByte h q

-- The addresses from `p` to `p + n`.
abbrev pub inside : ℕ → ℕ → ℕ → Bool
inside p n q = leb p q && ltb q (p + n)

abbrev pub copied : ℕ → ℕ → ℕ → Host → Host
copied n dst src h q = if inside dst n q then h (src + (q - dst)) else h q

abbrev pub filled : ℕ → ℕ → ℕ → Host → Host
filled n dst value h q = if inside dst n q then some value else h q

update-HasByte : (h : Host) (a b q : ℕ) → HasByte h q → HasByte (update h a (some b)) q
update-HasByte h a b q c = elim (Bool-cases (a == q)) [
  | inl same ↦ (b, rw same refl)
  | inr other ↦ (c.0, rw other c.1)
]

copy_zero : (dst src : ℕ) (h : Host) → copy 0 dst src h ≡ ok h
unfolding copy
copy_zero dst src h = refl

copy_step :
    (n dst src : ℕ) (h : Host) {b old : ℕ}
    → h src ≡ some b
    → h dst ≡ some old
    → copy (suc n) dst src h ≡ copy n (dst + 1) (src + 1) (update h dst (some b))
unfolding copy
copy_step n dst src h read there = ground (arith, read, there)

-- The first byte and the rest together.
copied-suc :
    (n dst src : ℕ) (h : Host) {b : ℕ} (q : ℕ)
    → h src ≡ some b
    → (src + suc n ≤ dst) ⊎ (dst + suc n ≤ src)
    → copied n (dst + 1) (src + 1) (update h dst (some b)) q ≡ copied (suc n) dst src h q
copied-suc n dst src h {b} q read apart = elim (Bool-cases (dst == q)) [
  | inl same ↦
      let e : src + (q - dst) ≡ src = ground arith in
      let at_src : h (src + (q - dst)) ≡ some b = rw e read in ground (arith, at_src)
  | inr other ↦ elim (Bool-cases (ltb dst q)) [
    | inl behind ↦
        let e : src + 1 + (q - (dst + 1)) ≡ src + (q - dst) = ground arith in rw e (ground arith)
    | inr before ↦ ground arith
  ]
]

copy_lem :
    (n dst src : ℕ) (h : Host)
    → HasBytes h src n
    → HasBytes h dst n
    → (src + n ≤ dst) ⊎ (dst + n ≤ src)
    → (h' : Host) × (copy n dst src h ≡ ok h') × ((q : ℕ) → h' q ≡ copied n dst src h q)
copy_lem zero dst src h from to apart = (h, copy_zero dst src h, (λ q. ground arith))
copy_lem (suc n) dst src h from to apart =
    let (b, read) = from src (omega arith) (omega arith) in
    let (old, there) = to dst (omega arith) (omega arith) in
    let (h', rest, cells) =
      copy_lem n (dst + 1) (src + 1) (update h dst (some b))
        (λ q le lt. update-HasByte h dst b q (from q (omega arith) (omega arith)))
        (λ q le lt. update-HasByte h dst b q (to q (omega arith) (omega arith))) (ground arith) in
    (
      h',
      copy_step n dst src h read there ∙ rest,
      (λ q. cells q ∙ copied-suc n dst src h q read apart),
    )

-- On mapped areas that lie apart, `memcpy` returns, and makes the one a copy of the other.
pub memcpy_lem :
    (n dst src : ℕ) (h : Host)
    → HasBytes h src n
    → HasBytes h dst n
    → (src + n ≤ dst) ⊎ (dst + n ≤ src)
    → (h' : Host) × (memcpy n dst src h ≡ ok h') × ((q : ℕ) → h' q ≡ copied n dst src h q)
unfolding memcpy
memcpy_lem n dst src h from to apart =
    let (h', done, cells) = copy_lem n dst src h from to apart in (h', ground (arith, done), cells)

memset_step :
    (n dst value : ℕ) (h : Host) {old : ℕ}
    → h dst ≡ some old
    → memset (suc n) dst value h ≡ memset n (dst + 1) value (update h dst (some value))
unfolding memset
memset_step n dst value h there = ground (arith, there)

memset_zero : (dst value : ℕ) (h : Host) → memset 0 dst value h ≡ ok h
unfolding memset
memset_zero dst value h = refl

-- On a mapped area `memset` returns, and fills it.
pub memset_lem :
    (n dst value : ℕ) (h : Host)
    → HasBytes h dst n
    → (h' : Host) × (memset n dst value h ≡ ok h') × ((q : ℕ) → h' q ≡ filled n dst value h q)
memset_lem zero dst value h to = (h, memset_zero dst value h, (λ q. ground arith))
memset_lem (suc n) dst value h to =
    let (old, there) = to dst (omega arith) (omega arith) in
    let (h', rest, cells) =
      memset_lem n (dst + 1) value (update h dst (some value))
        (λ q le lt. update-HasByte h dst value q (to q (omega arith) (omega arith))) in
    (h', memset_step n dst value h there ∙ rest, (λ q. cells q ∙ ground arith))
