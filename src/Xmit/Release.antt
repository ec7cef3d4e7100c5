-- ===== src/Xmit/Release.antt =====
-- nx_free_tx_resources, in driver/unm_nic_main.c: what the command buffers still hold is given
-- back when the ring goes.
use hp_nx_nic.Prelude.{
  ℕ, zero, suc, ◌≡◌, refl, sym, ap, ◌∙◌, Option, none, some, List, [], ◌∷◌, ◌++◌, ◌==◌,
  if◌then◌else◌, arith, length, ◌≤◌,
}
use mathlib.Core.Path.{ap₂, subst}
use mathlib.Core.List.{append-nil}
use hp_nx_nic.CmdRing.Ring.{CmdBuffer}
use hp_nx_nic.Xmit.Packet.{Frag}
use hp_nx_nic.Xmit.Frame.{Transmit}

-- What has been taken down and given back so far, and the buffers behind the step.
pub record Released : Type 0 where
  pub unmapped : List Frag
  pub freed : List ℕ
  pub buffers : List CmdBuffer
  pub arrays : List (List Frag)

-- One fragment: unmapped and cleared, if it has an address.
abbrev pub release_frag : Frag → Frag
release_frag f = record f { dma = 0 }

abbrev pub mapping : Frag → List Frag
mapping f = if f.dma == 0 then [] else f ∷ []

-- The fragments of a buffer that the loop looks at: the first, and `fragCount` behind it.
abbrev pub release_frags : ℕ → List Frag → List Frag
release_frags zero fs = fs
release_frags (suc n) [] = []
release_frags (suc n) (f ∷ fs) = release_frag f ∷ release_frags n fs

abbrev pub mappings : ℕ → List Frag → List Frag
mappings zero fs = []
mappings (suc n) [] = []
mappings (suc n) (f ∷ fs) = mapping f ++ mappings n fs

abbrev pub held : Option ℕ → List ℕ → List ℕ
held none freed = freed
held (some skb) freed = skb ∷ freed

-- The loop over the buffers, each with its fragArray.
unfoldable pub release_all : ℕ → List CmdBuffer → List (List Frag) → List Frag → List ℕ → Released
release_all (suc n) (b ∷ bs) (fs ∷ fss) unmapped freed =
    let rest =
      release_all n bs fss (unmapped ++ mappings (suc b.frag_count) fs) (held b.skb freed) in
    record rest {
      buffers = record b { skb = none } ∷ rest.buffers;
      arrays = release_frags (suc b.frag_count) fs ∷ rest.arrays;
    }
release_all n bs fss unmapped freed = record {
  unmapped = unmapped;
  freed = freed;
  buffers = bs;
  arrays = fss;
}

abbrev pub put_released : Transmit → Released → Transmit
put_released t out = record t {
  ring = record t.ring { cmd_buf_arr = some out.buffers; freed = out.freed };
  frag_arrays = out.arrays;
  unmapped = out.unmapped;
}

abbrev pub release_buffers : Transmit → Option (List CmdBuffer) → Transmit
release_buffers t none = t
release_buffers t (some bs) =
    put_released t (release_all t.ring.max_tx_desc_count bs t.frag_arrays t.unmapped t.ring.freed)

-- nx_free_tx_resources
unfoldable pub free_tx_resources : Transmit → Transmit
unfolding release_all
free_tx_resources t = release_buffers t t.ring.cmd_buf_arr

release_frags_twice :
    (n : ℕ) (fs : List Frag) → release_frags n (release_frags n fs) ≡ release_frags n fs
release_frags_twice zero fs = refl
release_frags_twice (suc n) [] = refl
release_frags_twice (suc n) (f ∷ fs) = ap (λ l. release_frag f ∷ l) (release_frags_twice n fs)

mappings-released : (n : ℕ) (fs : List Frag) → mappings n (release_frags n fs) ≡ []
mappings-released zero fs = refl
mappings-released (suc n) [] = refl
mappings-released (suc n) (f ∷ fs) = mappings-released n fs

release_all_twice :
    (n : ℕ) (bs : List CmdBuffer) (fss : List (List Frag)) (u u' : List Frag) (fr fr' : List ℕ)
    → let r = release_all n bs fss u fr in
      release_all n r.buffers r.arrays u' fr'
      ≡ record { unmapped = u'; freed = fr'; buffers = r.buffers; arrays = r.arrays }
unfolding release_all
release_all_twice zero bs fss u u' fr fr' = refl
release_all_twice (suc n) [] fss u u' fr fr' = refl
release_all_twice (suc n) (b ∷ bs) [] u u' fr fr' = refl
release_all_twice (suc n) (b ∷ bs) (fs ∷ fss) u u' fr fr' =
    let m = suc b.frag_count in
    let none_left : u' ++ mappings m (release_frags m fs) ≡ u' =
      ap (λ l. u' ++ l) (mappings-released m fs) ∙ append-nil u' in
    let r = release_all n bs fss (u ++ mappings m fs) (held b.skb fr) in
    let wrapped : Released → List Frag → Released = λ x arr. record x {
      buffers = record b { skb = none } ∷ x.buffers;
      arrays = arr ∷ x.arrays;
    } in
    ap₂ wrapped
      (ap (λ l. release_all n r.buffers r.arrays l fr') none_left
        ∙ release_all_twice n bs fss (u ++ mappings m fs) u' (held b.skb fr) fr')
      (release_frags_twice m fs)

-- The skbs of a list of buffers, the latest in front, and that no buffer has one.
abbrev pub held_all : List CmdBuffer → List ℕ → List ℕ
held_all [] freed = freed
held_all (b ∷ bs) freed = held_all bs (held b.skb freed)

abbrev pub AllEmpty : List CmdBuffer → Type 0
AllEmpty [] = Unit
AllEmpty (b ∷ bs) = (b.skb ≡ none) × AllEmpty bs

release_all-AllEmpty :
    (n : ℕ) (bs : List CmdBuffer) (fss : List (List Frag)) (u : List Frag) (fr : List ℕ)
    → length bs ≤ n
    → length bs ≤ length fss
    → let r = release_all n bs fss u fr in AllEmpty r.buffers × (r.freed ≡ held_all bs fr)
unfolding release_all
release_all-AllEmpty zero [] fss u fr h k = (tt, refl)
release_all-AllEmpty zero (b ∷ bs) fss u fr h k = absurd (omega arith)
release_all-AllEmpty (suc n) [] fss u fr h k = (tt, refl)
release_all-AllEmpty (suc n) (b ∷ bs) [] u fr h k = absurd (omega arith)
release_all-AllEmpty (suc n) (b ∷ bs) (fs ∷ fss) u fr h k =
    let (empty, freed) =
      release_all-AllEmpty n bs fss (u ++ mappings (suc b.frag_count) fs) (held b.skb fr)
        (omega arith) (omega arith) in
    ((refl, empty), freed)

free_twice :
    (t : Transmit) (o : Option (List CmdBuffer))
    → t.ring.cmd_buf_arr ≡ o
    → free_tx_resources (release_buffers t o) ≡ release_buffers t o
unfolding free_tx_resources
free_twice t none e = ap (release_buffers t) e
free_twice t (some bs) e =
    let n = t.ring.max_tx_desc_count in
    let out = release_all n bs t.frag_arrays t.unmapped t.ring.freed in
    ap (put_released (put_released t out))
      (release_all_twice n bs t.frag_arrays t.unmapped out.unmapped t.ring.freed out.freed)

-- What giving the buffers `bs` back leaves.
pub record Frees (bs : List CmdBuffer) (t t' : Transmit) : Type 0 where
  pub buffers : List CmdBuffer
  pub kept : t'.ring.cmd_buf_arr ≡ some buffers
  pub emptied : AllEmpty buffers
  pub freed : t'.ring.freed ≡ held_all bs t.ring.freed
  pub again : free_tx_resources t' ≡ t'

-- If there are as many command buffers as the ring has entries, each with a fragArray, then
-- nx_free_tx_resources frees the skb of every buffer that has one, once, and leaves none; a second
-- call changes nothing, so that it neither frees an skb nor takes a mapping down again.
pub free_tx_resources-Frees :
    (t : Transmit) (bs : List CmdBuffer)
    → t.ring.cmd_buf_arr ≡ some bs
    → length bs ≡ t.ring.max_tx_desc_count
    → length t.frag_arrays ≡ t.ring.max_tx_desc_count
    → Frees bs t (free_tx_resources t)
unfolding free_tx_resources
free_tx_resources-Frees t bs e sized arrays =
    let n = t.ring.max_tx_desc_count in
    let out = release_all n bs t.frag_arrays t.unmapped t.ring.freed in
    let (empty, freed) =
      release_all-AllEmpty n bs t.frag_arrays t.unmapped t.ring.freed (omega (arith, sized))
        (omega (arith, sized, arrays)) in
    subst (λ o. Frees bs t (release_buffers t o)) (sym e)
      (record {
        buffers = out.buffers;
        kept = refl;
        emptied = empty;
        freed = freed;
        again = free_twice t (some bs) e;
      })
