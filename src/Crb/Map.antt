-- ===== src/Crb/Map.antt =====
-- What the direct map of the registers gives, of unm_nic_pci_get_crb_addr_2M: facts that hold of each
-- entry of crb_128M_2M_map.
use mathlib.Core.Bool.{true≢false}
use hp_nx_nic.Prelude.{
  ℕ, zero, suc, ◌+◌, ◌-◌, ◌*◌, ◌%◌, ◌^◌, ◌≡◌, ◌≢◌, refl, sym, ap, ◌∙◌, Option, none, some, List, [],
  ◌∷◌, Bool, true, false, ◌&&◌, ◌||◌, get_elem?, leb, ◌==◌, if◌then◌else◌, arith, some-injective,
}
use hp_nx_nic.Crb.Table.{SubBlock, empty, crb_128m_2m_map}
use hp_nx_nic.Crb.{sub_block, in_block, or_empty, hub_of}
use hp_nx_nic.Crb.Agents.{crb_hub_agt}

-- A test of each element of a list with its place.
abbrev pub all_from {ℓ} : {A : Type ℓ} → (ℕ → A → Bool) → ℕ → List A → Bool
all_from p i [] = true
all_from p i (x ∷ xs) = if p i x then all_from p (suc i) xs else false

if-true : (b c : Bool) → (if b then c else false) ≡ true → (b ≡ true) × (c ≡ true)
if-true true c h = (refl, h)
if-true false c h = absurd (true≢false (sym h))

none-ne-some {ℓ} : {A : Type ℓ} {x : A} → none ≢ some x
none-ne-some e = true≢false (ap (λ o. elim o [ none ↦ true | some y ↦ false ]) e)

all_from-get_elem? {ℓ} :
    {A : Type ℓ} (p : ℕ → A → Bool) (i : ℕ) (xs : List A) (k : ℕ) (x : A)
    → all_from p i xs ≡ true
    → get_elem? xs k ≡ some x
    → p (i + k) x ≡ true
all_from-get_elem? p i [] k x h e = absurd (none-ne-some e)
all_from-get_elem? p i (y ∷ ys) zero x h e =
    let same : i + zero ≡ i = omega arith in
    ap (λ n. p n x) same
    ∙ ap (p i) (sym (some-injective e))
    ∙ (if-true (p i y) (all_from p (suc i) ys) h).0
all_from-get_elem? p i (y ∷ ys) (suc k) x h e =
    let same : i + suc k ≡ suc i + k = omega arith in
    ap (λ n. p n x) same
    ∙ all_from-get_elem? p (suc i) ys k x (if-true (p i y) (all_from p (suc i) ys) h).1 e

pub all_from-at {ℓ} :
    {A : Type ℓ} (p : ℕ → A → Bool) (xs : List A) (k : ℕ) (x : A)
    → all_from p 0 xs ≡ true
    → get_elem? xs k ≡ some x
    → p k x ≡ true
all_from-at p xs k x h e =
    let same : k ≡ 0 + k = omega arith in ap (λ n. p n x) same ∙ all_from-get_elem? p 0 xs k x h e

abbrev pub all_blocks : (ℕ → ℕ → SubBlock → Bool) → Bool
all_blocks p = all_from (λ i b. all_from (λ j m. p i j m) 0 b) 0 crb_128m_2m_map

-- A test that holds of the entries which are written out, and of the zero entry, holds of all.
pub every :
    (p : ℕ → ℕ → SubBlock → Bool)
    → all_blocks p ≡ true
    → ((i j : ℕ) → p i j empty ≡ true)
    → (i j : ℕ) → p i j (sub_block i j) ≡ true
unfolding sub_block in_block or_empty
every p h e i j = at_block (get_elem? crb_128m_2m_map i) refl
  where
    at_entry :
        (b : List SubBlock)
        → get_elem? crb_128m_2m_map i ≡ some b
        → (o : Option SubBlock) → get_elem? b j ≡ o
        → p i j (or_empty o) ≡ true
    at_entry b eb none eo = e i j
    at_entry b eb (some m) eo =
        all_from-at (λ j m. p i j m) b j m
          (all_from-at (λ i b. all_from (λ j m. p i j m) 0 b) crb_128m_2m_map i b h eb) eo

    at_block :
        (o : Option (List SubBlock)) → get_elem? crb_128m_2m_map i ≡ o → p i j (in_block o j) ≡ true
    at_block none eb = e i j
    at_block (some b) eb = at_entry b eb (get_elem? b j) refl

-- An entry lies in its sub-block of 64 KB, and leads between the queue manager's page and the
-- window of the indirect access.
abbrev pub fits : ℕ → ℕ → SubBlock → Bool
fits i j m =
    if m.valid == 0
    then true
    else leb (i * 2 ^ 20 + j * 2 ^ 16) m.start_128m
      && leb m.end_128m (i * 2 ^ 20 + j * 2 ^ 16 + 2 ^ 16)
      && leb m.start_128m m.end_128m
      && leb 0x110000 m.start_2m
      && leb (m.start_2m + (m.end_128m - m.start_128m)) 0x1e0000

fits-all : all_blocks fits ≡ true
unfolding crb_128m_2m_map
fits-all = refl

pub fits-sub_block : (i j : ℕ) → fits i j (sub_block i j) ≡ true
fits-sub_block i j = every fits fits-all (λ i j. refl) i j

-- Two entries lead to places apart, or to the same one for the same agent.
abbrev pub agree : ℕ → SubBlock → ℕ → SubBlock → Bool
agree i m k n =
    if m.valid == 0
    then true
    else if n.valid == 0
    then true
    else leb (m.start_2m + (m.end_128m - m.start_128m)) n.start_2m
      || leb (n.start_2m + (n.end_128m - n.start_128m)) m.start_2m
      || hub_of i == hub_of k
        && m.start_2m == n.start_2m
        && m.start_128m % 2 ^ 20 == n.start_128m % 2 ^ 20

agree-all : all_blocks (λ i j m. all_blocks (λ k l n. agree i m k n)) ≡ true
unfolding crb_128m_2m_map hub_of crb_hub_agt
agree-all = refl

agree-empty : (i k : ℕ) (m : SubBlock) → agree i m k empty ≡ true
agree-empty i k m = ground arith

empty-agree : (i : ℕ) → all_blocks (λ k l n. agree i empty k n) ≡ true
unfolding crb_128m_2m_map
empty-agree i = refl

pub agree-sub_block : (i j k l : ℕ) → agree i (sub_block i j) k (sub_block k l) ≡ true
agree-sub_block i j k l =
    every (λ k l n. agree i (sub_block i j) k n)
      (every (λ i j m. all_blocks (λ k l n. agree i m k n)) agree-all (λ i j. empty-agree i) i j)
      (λ k l. agree-empty i k (sub_block i j)) k l
