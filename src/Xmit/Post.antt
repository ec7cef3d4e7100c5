-- ===== src/Xmit/Post.antt =====
-- The ring and the producer index once a packet is described, in driver/unm_nic_main.c.
use hp_nx_nic.Prelude.{
  ℕ, ◌+◌, ◌/◌, ◌%◌, ◌≤◌, ◌<◌, ◌≡◌, refl, sym, ap, ◌∙◌, Bool, ◌≢◌, some, List, arith, length, set,
  get_elem?, length-set, get_elem?-set_ne, ℕ_discrete,
}
use mathlib.Core.Path.{subst}
use hp_nx_nic.CmdRing.Window.{wrap, get_next_index}
use hp_nx_nic.Xmit.Packet.{Skb, Frag, Descriptor, Entry, desc}
use hp_nx_nic.Xmit.Headers.{tso_copy_headers}
use hp_nx_nic.Xmit.Frame.{describe}
use hp_nx_nic.Xmit.Entries.{entry_buffer, buffer_at, Holds}
use hp_nx_nic.Xmit.Complete.{
  Keeps, describe-Keeps, Copied, no_entry, one_entry, two_entries, tso_copy_headers-Copied,
}

module _ (size saved : ℕ) (saved_in : saved < size) where
  pub Holds-Keeps :
      (ring ring' : List Entry) (fs : List Frag) (n : ℕ)
      → Keeps saved ring ring'
      → Holds size ring saved fs n
      → Holds size ring' saved fs n
  Holds-Keeps ring ring' fs n keeps h j f hj hf =
      let i = wrap size (saved + j / 4) in
      elim (ℕ_discrete saved i) [
        | yes e ↦
            ap (λ p. buffer_at ring' p (j % 4)) (sym e)
            ∙ (keeps.buffers (j % 4) ∙ (ap (λ p. buffer_at ring p (j % 4)) e ∙ h j f hj hf))
        | no other ↦ ap (entry_buffer (j % 4)) (keeps.others i other) ∙ h j f hj hf
      ]

  -- An entry behind the descriptors is none of theirs.
  pub Holds-behind :
      (ring : List Entry) (fs : List Frag) (n m : ℕ) (e : Entry)
      → (n + 3) / 4 ≤ m
      → m < size
      → Holds size ring saved fs n
      → Holds size (set ring (wrap size (saved + m)) e) saved fs n
  Holds-behind ring fs n m e behind fits h j f hj hf =
      let before : j / 4 < m = omega (arith, behind, hj) in
      let away : wrap size (saved + m) ≢ wrap size (saved + j / 4) =
        λ q. ground (arith, q, before, fits, saved_in) in
      ap (entry_buffer (j % 4)) (get_elem?-set_ne ring e away) ∙ h j f hj hf

  pub next_behind :
      (m : ℕ)
      → m + 1 < size
      → get_next_index (wrap size (saved + m)) size ≡ wrap size (saved + (m + 1))
  next_behind m h = ground arith

-- The producer index and the ring once `n` fragments are described from `saved` on.
pub record Described (size saved n : ℕ) (fs : List Frag) (out : ℕ × List Entry) : Type 0 where
  pub used : ℕ
  pub at_least : (n + 3) / 4 ≤ used
  pub at_most : used ≤ (n + 3) / 4 + 2
  pub index : out.0 ≡ wrap size (saved + used)
  pub sized : length out.1 ≡ size
  pub holds : Holds size out.1 saved fs n

module _ (size saved n : ℕ) (saved_in : saved < size) (fits : (n + 3) / 4 + 2 < size) where
  Copied-Described :
      (ring : List Entry) (fs : List Frag) (out : ℕ × List Entry)
      → length ring ≡ size
      → Holds size ring saved fs n
      → Copied size saved ring (wrap size (saved + (n + 3) / 4)) out
      → Described size saved n fs out
  Copied-Described ring fs out sized holds (no_entry {ring' = ring'} keeps) = record {
    used = (n + 3) / 4;
    at_least = omega arith;
    at_most = omega arith;
    index = refl;
    sized = keeps.same_length ∙ sized;
    holds = Holds-Keeps size saved saved_in ring ring' fs n keeps holds;
  }
  Copied-Described ring fs out sized holds (one_entry {ring' = ring'} e keeps) = record {
    used = (n + 3) / 4 + 1;
    at_least = omega arith;
    at_most = omega arith;
    index = next_behind size saved saved_in ((n + 3) / 4) (omega (arith, fits));
    sized = length-set ring' (wrap size (saved + (n + 3) / 4)) e ∙ (keeps.same_length ∙ sized);
    holds =
        Holds-behind size saved saved_in ring' fs n ((n + 3) / 4) e (omega arith)
          (omega (arith, fits)) (Holds-Keeps size saved saved_in ring ring' fs n keeps holds);
  }
  Copied-Described ring fs out sized holds (two_entries {ring' = ring'} e e' keeps) =
      let m = (n + 3) / 4 in
      let index : get_next_index (wrap size (saved + m)) size ≡ wrap size (saved + (m + 1)) =
        next_behind size saved saved_in m (omega (arith, fits)) in
      let ring1 = set ring' (wrap size (saved + m)) e in
      let holds1 : Holds size ring1 saved fs n =
        Holds-behind size saved saved_in ring' fs n m e (omega arith) (omega (arith, fits))
          (Holds-Keeps size saved saved_in ring ring' fs n keeps holds) in
      record {
        used = m + 1 + 1;
        at_least = omega arith;
        at_most = omega arith;
        index =
            ap (λ p. get_next_index p size) index
            ∙ next_behind size saved saved_in (m + 1) (omega (arith, fits));
        sized =
            length-set ring1 (get_next_index (wrap size (saved + m)) size) e'
            ∙ (length-set ring' (wrap size (saved + m)) e ∙ (keeps.same_length ∙ sized));
        holds =
            subst (λ p. Holds size (set ring1 p e') saved fs n) (sym index)
              (Holds-behind size saved saved_in ring1 fs n (m + 1) e' (omega arith)
                (omega (arith, fits)) holds1);
      }

  -- The ring behind both steps, for a first descriptor that stands in the entry `saved`.
  pub posted-Described :
      (skb : Skb) (tagged : Bool) (ring : List Entry) (fs : List Frag) (d : Descriptor)
      → length ring ≡ size
      → get_elem? ring saved ≡ some (desc d)
      → Holds size ring saved fs n
      → Described size saved n fs (
          tso_copy_headers size skb saved
            (wrap size (saved + (n + 3) / 4), describe skb tagged saved ring))
  posted-Described skb tagged ring fs d sized e holds =
      let keeps : Keeps saved ring (describe skb tagged saved ring) =
        describe-Keeps skb tagged saved ring d (omega (arith, saved_in, sized)) e in
      let (d', e') = keeps.described in
      let sized' : length (describe skb tagged saved ring) ≡ size = keeps.same_length ∙ sized in
      Copied-Described (describe skb tagged saved ring) fs
        (tso_copy_headers size skb saved
          (wrap size (saved + (n + 3) / 4), describe skb tagged saved ring))
        sized'
        (Holds-Keeps size saved saved_in ring (describe skb tagged saved ring) fs n keeps holds)
        (tso_copy_headers-Copied size saved skb (describe skb tagged saved ring)
          (wrap size (saved + (n + 3) / 4)) d' (omega (arith, saved_in, sized')) e')
