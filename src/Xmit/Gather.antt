-- ===== src/Xmit/Gather.antt =====
-- The fragment loop of unm_nic_xmit_frame from its first round to its last, in
-- driver/unm_nic_main.c.
pub mod Step
pub mod Put
use hp_nx_nic.Xmit.Gather.Step.{At, next_desc-Ready, Ready}
use hp_nx_nic.Xmit.Gather.Put.{put_frag-At}
use hp_nx_nic.Prelude.{
  ℕ, zero, suc, ◌+◌, ◌-◌, ◌/◌, ◌%◌, ◌≤◌, ◌<◌, ◌≡◌, refl, sym, ap, ◌∙◌, Bool, true, false, ◌≢◌,
  Option, none, some, List, [], ◌∷◌, ◌++◌, arith, ◌==◌, if◌then◌else◌, length, set, get_elem?, take,
  length-set, get_elem?-set_self, get_elem?-set_ne, inl, inr, ℕ_discrete, some-injective, if-cases,
  Option-cases,
}
use mathlib.Core.Path.{subst}
use hp_nx_nic.CmdRing.Window.{wrap, get_next_index}
use hp_nx_nic.Xmit.Entries.{
  buffer, entry_buffer, buffer_at, Holds, length-change_desc, change_desc_ne, change_desc_self,
  div_mod_ne, wrap_ne,
}
use hp_nx_nic.Xmit.Packet.{
  SkbFrag, Frag, Descriptor, Entry, desc, header, change_entry, change_desc, zero_descriptor,
}
use hp_nx_nic.Xmit.Fill.{
  Filling, field, put_buffer, next_desc, put_frag, clean_tx_dma_mapping, fill_frags, as_frag,
}

-- What the loop leaves: the fragments stand in the ring, or every mapping is taken down.
pub data Filled (size saved room n : ℕ) : Bool × Filling → Type 0 where
  filled : {s : Filling} → At size saved room n s → Filled size saved room n (true, s)
  undone :
      {s : Filling}
      → s.unmapped ≡ s.mapped
      → length s.ring ≡ size
      → Filled size saved room n (false, s)

module _ (size saved room : ℕ) (saved_in : saved < size) (map_page : SkbFrag → Option ℕ) where
  next_desc-mapped : (s : Filling) → (next_desc size s).mapped ≡ s.mapped
  unfolding next_desc
  next_desc-mapped s =
      if-cases (λ (x : Filling). x.mapped ≡ s.mapped) (s.k % 4 == 0) (λ e. refl) (λ e. refl)

  undone-Filled :
      (i n : ℕ) (s : Filling)
      → 0 < i
      → Ready size saved room i s
      → Filled size saved room n (false, clean_tx_dma_mapping s i)
  unfolding clean_tx_dma_mapping
  undone-Filled i n s pos r =
      let last : suc (i - 1) ≡ i = omega arith in
      undone
        (ap (λ l. l ++ take (suc (i - 1)) s.frag_array) r.unmapped_none
          ∙ (ap (λ m. take m s.frag_array) last ∙ sym r.mapped_all))
        r.sized

  pub fill_frags-Filled :
      (i : ℕ) (fs : List SkbFrag) (s : Filling)
      → 0 < i
      → i + length fs ≤ room
      → (i + length fs + 3) / 4 ≤ size
      → At size saved room i s
      → Filled size saved room (i + length fs) (fill_frags size map_page i fs s)
  unfolding fill_frags
  fill_frags-Filled i [] s pos inside fits t =
      let all : i + 0 ≡ i = omega arith in filled (subst (λ n. At size saved room n s) (sym all) t)
  fill_frags-Filled i (f ∷ fs) s pos inside fits t =
      let r : Ready size saved room i (next_desc size s) =
        next_desc-Ready size saved room saved_in i s pos (omega arith) t in
      let all : suc i + length fs ≡ i + suc (length fs) = omega arith in
      let next : ℕ → Filling = λ dma. put_frag i (as_frag dma f) (next_desc size s) in
      let rest : ℕ → Bool × Filling = λ dma. fill_frags size map_page (suc i) fs (next dma) in
      let failed : Bool × Filling = (false, clean_tx_dma_mapping (next_desc size s) i) in
      elim (map_page f)
        as (λ o.
          Filled size saved room (i + suc (length fs))
            (elim o [ none ↦ failed | some dma ↦ rest dma ])) [
              | none ↦ undone-Filled i (i + suc (length fs)) (next_desc size s) pos r
              | some dma ↦
                  subst (λ n. Filled size saved room n (rest dma)) all
                    (fill_frags-Filled (suc i) fs (next dma) (omega arith) (omega arith)
                      (omega arith)
                      (put_frag-At size saved room saved_in i (next_desc size s) (as_frag dma f)
                        (omega arith) (omega arith) r))
            ]
