-- ===== src/Xmit/Gather/Put.antt =====
-- A fragment written to its descriptor.
use hp_nx_nic.Prelude.{
  ℕ, zero, suc, ◌+◌, ◌-◌, ◌/◌, ◌%◌, ◌<◌, ◌≡◌, refl, sym, ap, ◌∙◌, ◌≢◌, some, List, [], ◌∷◌, ◌++◌,
  arith, length, set, get_elem?, take, length-set, get_elem?-set_self, get_elem?-set_ne, ℕ_discrete,
  some-injective,
}
use hp_nx_nic.CmdRing.Window.{wrap}
use hp_nx_nic.Xmit.Entries.{
  buffer, entry_buffer, buffer_at, Holds, length-change_desc, change_desc_ne, change_desc_self,
  div_mod_ne, wrap_ne,
}
use hp_nx_nic.Xmit.Gather.Step.{Ready, At}
use hp_nx_nic.Xmit.Packet.{Frag, Descriptor, desc, change_desc}
use hp_nx_nic.Xmit.Fill.{Filling, field, put_buffer, put_frag}

buffer-put_buffer_self :
    (k : ℕ) (f : Frag) (d : Descriptor) → k < 4 → buffer k (put_buffer k f d) ≡ field f
buffer-put_buffer_self k f d h = ground arith

buffer-put_buffer_ne :
    (k j : ℕ) (f : Frag) (d : Descriptor) → j < 4 → j ≢ k → buffer j (put_buffer k f d) ≡ buffer j d
buffer-put_buffer_ne k j f d h n = ground arith

take-set {ℓ} :
    {A : Type ℓ} (xs : List A) (i : ℕ) (x : A)
    → i < length xs
    → take (suc i) (set xs i x) ≡ take i xs ++ x ∷ []
take-set [] i x h = absurd (omega arith)
take-set (y ∷ ys) zero x h = refl
take-set (y ∷ ys) (suc i) x h = ap (λ l. y ∷ l) (take-set ys i x (omega arith))

module _ (size saved room : ℕ) (saved_in : saved < size) where
  put_self :
      (i j : ℕ) (s : Filling) (f g : Frag) (d : Descriptor)
      → i / 4 < size
      → i < room
      → Ready size saved room i s
      → get_elem? (change_desc (put_buffer s.k f) s.ring s.producer) s.producer
        ≡ some (desc (put_buffer s.k f d))
      → j ≡ i
      → get_elem? (set s.frag_array i f) j ≡ some g
      → buffer_at
          (change_desc (put_buffer s.k f) s.ring s.producer)
          (wrap size (saved + j / 4))
          (j % 4)
        ≡ some (field g)
  put_self i j s f g d fits inside r written same hg =
      let in_array : i < length s.frag_array = omega (arith, r.roomy, inside) in
      let there : get_elem? (set s.frag_array i f) j ≡ some f =
        ap (get_elem? (set s.frag_array i f)) same ∙ get_elem?-set_self s.frag_array i f in_array in
      let which : f ≡ g = some-injective (sym there ∙ hg) in
      let ring' = change_desc (put_buffer s.k f) s.ring s.producer in
      ap (λ n. buffer_at ring' (wrap size (saved + n / 4)) (n % 4)) same
      ∙ (ap (λ p. buffer_at ring' p (i % 4)) (sym r.producer_at)
          ∙ (ap (entry_buffer (i % 4)) written
              ∙ ap some (
                  ap (λ k. buffer (i % 4) (put_buffer k f d)) r.k_at
                  ∙ (buffer-put_buffer_self (i % 4) f d (omega arith) ∙ ap field which))))

  put_other :
      (i j : ℕ) (s : Filling) (f g : Frag) (d : Descriptor)
      → i / 4 < size
      → Ready size saved room i s
      → get_elem? s.ring s.producer ≡ some (desc d)
      → get_elem? (change_desc (put_buffer s.k f) s.ring s.producer) s.producer
        ≡ some (desc (put_buffer s.k f d))
      → j < i
      → get_elem? (set s.frag_array i f) j ≡ some g
      → buffer_at
          (change_desc (put_buffer s.k f) s.ring s.producer)
          (wrap size (saved + j / 4))
          (j % 4)
        ≡ some (field g)
  put_other i j s f g d fits r here written hj hg =
      let differ : i ≢ j = λ e. omega (arith, e, hj) in
      let kept : get_elem? s.frag_array j ≡ some g =
        sym (get_elem?-set_ne s.frag_array f differ) ∙ hg in
      let ring' = change_desc (put_buffer s.k f) s.ring s.producer in
      elim (ℕ_discrete (j / 4) (i / 4)) [
        | yes q ↦
            let index : wrap size (saved + j / 4) ≡ s.producer =
              ap (λ n. wrap size (saved + n)) q ∙ sym r.producer_at in
            let older : some (buffer (j % 4) d) ≡ some (field g) =
              sym (ap (entry_buffer (j % 4)) here)
              ∙ (ap (λ p. buffer_at s.ring p (j % 4)) (sym index) ∙ r.holds j g hj kept) in
            let place : j % 4 ≢ s.k = λ e. div_mod_ne i j q (λ e'. differ (sym e')) (e ∙ r.k_at) in
            ap (λ p. buffer_at ring' p (j % 4)) index
            ∙ (ap (entry_buffer (j % 4)) written
                ∙ (ap some (buffer-put_buffer_ne s.k (j % 4) f d (omega arith) place) ∙ older))
        | no apart ↦
            let before : j / 4 < i / 4 = omega (arith, apart, hj) in
            let away : s.producer ≢ wrap size (saved + j / 4) = λ e.
              wrap_ne size saved (j / 4) (i / 4) saved_in before fits (sym r.producer_at ∙ e) in
            ap (entry_buffer (j % 4))
              (change_desc_ne (put_buffer s.k f) s.ring s.producer (wrap size (saved + j / 4)) away)
            ∙ r.holds j g hj kept
      ]

  -- A fragment written to the descriptor joins those that stand in the ring.
  Holds-put :
      (i : ℕ) (s : Filling) (f : Frag)
      → i / 4 < size
      → i < room
      → Ready size saved room i s
      → Holds size
          (change_desc (put_buffer s.k f) s.ring s.producer)
          saved
          (set s.frag_array i f)
          (suc i)
  Holds-put i s f fits inside r j g hj hg =
      let (d, here) = r.described in
      let in_ring : s.producer < length s.ring = ground (arith, r.producer_at, r.sized, saved_in) in
      let written : get_elem? (change_desc (put_buffer s.k f) s.ring s.producer) s.producer
          ≡ some (desc (put_buffer s.k f d)) =
        change_desc_self (put_buffer s.k f) s.ring s.producer d in_ring here in
      elim (ℕ_discrete j i) [
        | yes same ↦ put_self i j s f g d fits inside r written same hg
        | no other ↦ put_other i j s f g d fits r here written (omega (arith, hj, other)) hg
      ]

  pub put_frag-At :
      (i : ℕ) (s : Filling) (f : Frag)
      → i / 4 < size
      → i < room
      → Ready size saved room i s
      → At size saved room (suc i) (put_frag i f s)
  unfolding put_frag
  put_frag-At i s f fits inside r =
      let (d, here) = r.described in
      let in_ring : s.producer < length s.ring = ground (arith, r.producer_at, r.sized, saved_in) in
      let back : i ≡ suc i - 1 = omega arith in
      let in_array : i < length s.frag_array = omega (arith, r.roomy) in
      record {
        mapped_all = ap (λ l. l ++ f ∷ []) r.mapped_all ∙ sym (take-set s.frag_array i f in_array);
        unmapped_none = r.unmapped_none;
        producer_at = r.producer_at ∙ ap (λ n. wrap size (saved + n / 4)) back;
        k_at = ap (λ k. k + 1) r.k_at ∙ ap (λ n. n % 4 + 1) back;
        sized = length-change_desc (put_buffer s.k f) s.ring s.producer ∙ r.sized;
        described = (
          put_buffer s.k f d,
          change_desc_self (put_buffer s.k f) s.ring s.producer d in_ring here,
        );
        roomy = length-set s.frag_array i f ∙ r.roomy;
        holds = Holds-put i s f fits inside r;
      }
