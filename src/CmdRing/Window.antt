-- ===== src/CmdRing/Window.antt =====
-- The entries of a circular array between two indices that get_next_index moves
-- (include/nic_cmn.h, include/nxhal.h).
use mathlib.Core.Path.{subst, ap₂}
use mathlib.Core.List.{append-nil, append_assoc}
use hp_nx_nic.Prelude.{
  ℕ, zero, suc, ◌+◌, ◌-◌, ◌≤◌, ◌<◌, ◌≡◌, refl, sym, ap, ◌∙◌, Option, some, List, [], ◌∷◌, ◌++◌,
  arith, ltb, ◌==◌, if◌then◌else◌, length, get_elem?, set, get_elem?-set_self, get_elem?-set_ne,
}

-- `get_next_index(index, length)`
abbrev pub get_next_index : ℕ → ℕ → ℕ
get_next_index index len = if index + 1 == len then 0 else index + 1

-- An index below twice the size, brought back into the array.
abbrev pub wrap : ℕ → ℕ → ℕ
wrap len x = if ltb x len then x else x - len

module _ {ℓ} {A : Type ℓ} where
  -- The `n` entries from index `h` on.
  abbrev pub window : List A → ℕ → ℕ → ℕ → List (Option A)
  window buf len h zero = []
  window buf len h (suc n) = window buf len h n ++ get_elem? buf (wrap len (h + n)) ∷ []

  -- A write at or behind the end of a window leaves it as it is.
  pub window-set :
      (buf : List A) (len h n m : ℕ) (v : A)
      → h < len
      → n ≤ m
      → m < len
      → window (set buf (wrap len (h + m)) v) len h n ≡ window buf len h n
  window-set buf len h zero m v hh hn hm = refl
  window-set buf len h (suc n) m v hh hn hm = rw (
    window-set buf len h n m v hh (omega arith) hm,
    get_elem?-set_ne buf {i = wrap len (h + m)} {j = wrap len (h + n)} v (ground arith),
  )

  -- A write just behind a window extends it.
  pub window-push :
      (buf : List A) (len h n i : ℕ) (v : A)
      → h < len
      → n < len
      → length buf ≡ len
      → i ≡ wrap len (h + n)
      → window (set buf i v) len h (suc n) ≡ window buf len h n ++ some v ∷ []
  window-push buf len h n i v hh hn hb e =
      subst (λ k. window (set buf k v) len h (suc n) ≡ window buf len h n ++ some v ∷ []) (sym e)
        (rw (
          window-set buf len h n n v hh (omega arith) hn,
          get_elem?-set_self buf (wrap len (h + n)) v (ground arith),
        ))

  -- The oldest entry, and the window behind it.
  pub window-head :
      (buf : List A) (len h n : ℕ)
      → h < len
      → n < len
      → window buf len h (suc n) ≡ get_elem? buf h ∷ window buf len (get_next_index h len) n
  window-head buf len h zero hh hn = ap (λ k. get_elem? buf k ∷ []) (ground arith)
  window-head buf len h (suc n) hh hn = rw (window-head buf len h n hh (omega arith)) (
      ap (λ k. get_elem? buf h ∷ (window buf len (get_next_index h len) n ++ get_elem? buf k ∷ []))
        (ground arith))

  -- A window falls into its oldest entries and the window behind them.
  pub window-split :
      (buf : List A) (len h m n : ℕ)
      → h < len
      → m + n < len
      → window buf len h (m + n) ≡ window buf len h m ++ window buf len (wrap len (h + m)) n
  window-split buf len h m zero hh hm =
      let none_more : m + 0 ≡ m = omega arith in
      ap (window buf len h) none_more ∙ sym (append-nil (window buf len h m))
  window-split buf len h m (suc n) hh hm =
      let more : m + suc n ≡ suc (m + n) = omega arith in
      let index : wrap len (h + (m + n)) ≡ wrap len (wrap len (h + m) + n) = ground arith in
      ap (window buf len h) more
      ∙ (ap₂ (λ l k. l ++ get_elem? buf k ∷ []) (window-split buf len h m n hh (omega arith)) index
          ∙ append_assoc (window buf len h m) (window buf len (wrap len (h + m)) n)
              (get_elem? buf (wrap len (wrap len (h + m) + n)) ∷ []))
