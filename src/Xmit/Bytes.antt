-- ===== src/Xmit/Bytes.antt =====
-- The bytes that nx_nic_tso_copy_headers puts behind a large packet's descriptors.
use hp_nx_nic.Prelude.{
  ℕ, zero, suc, ◌+◌, ◌-◌, ◌≤◌, ◌<◌, ◌≡◌, ◌≢◌, refl, sym, ap, ◌∙◌, Option, none, some, List, [], ◌∷◌,
  ◌++◌, arith, ltb, if◌then◌else◌, length, set, get_elem?, take, drop, length-set,
  get_elem?-set_self, get_elem?-set_ne, Bool-cases, ltb→lt, inl, inr, length-take, ◌%◌, ◌^◌,
}
use mathlib.Core.List.{append-nil, append_assoc}
use hp_nx_nic.CmdRing.Window.{get_next_index}
use hp_nx_nic.Xmit.Packet.{Entry, desc, header}
use hp_nx_nic.Xmit.Headers.{
  copy_headers, copy_bytes, first_bytes, entry_size, more_bytes, more_from, first_room, tag_bytes,
}

-- A frame as it goes on the wire: the tag that the kernel keeps beside it stands behind the two
-- addresses.
abbrev pub wire_bytes : Option ℕ → List ℕ → List ℕ
wire_bytes none bytes = bytes
wire_bytes (some vid) bytes = take 12 bytes ++ (tag_bytes (vid % 2 ^ 16) ++ drop 12 bytes)

abbrev pub entry_bytes : Option Entry → List ℕ
entry_bytes (some (header o bs)) = bs
entry_bytes (some (desc d)) = []
entry_bytes none = []

-- The bytes of `n` entries from index `i` on.
abbrev pub bytes_from : ℕ → List Entry → ℕ → ℕ → List ℕ
bytes_from size ring i zero = []
bytes_from size ring i (suc n) =
    entry_bytes (get_elem? ring i) ++ bytes_from size ring (get_next_index i size) n

-- The entries that a header takes.
abbrev pub header_entries : ℕ → ℕ
header_entries n = if ltb first_room n then 2 else 1

module _ {ℓ} {A : Type ℓ} where
  take-nil : (n : ℕ) → take {A = A} n [] ≡ []
  take-nil zero = refl
  take-nil (suc n) = refl

  take-more : (xs : List A) (m n k : ℕ) → k ≡ m + n → take m xs ++ take n (drop m xs) ≡ take k xs
  take-more xs zero n k e = ap (λ j. take j xs) (omega arith)
  take-more [] (suc m) n k e = take-nil n ∙ sym (take-nil k)
  take-more (x ∷ xs) (suc m) n zero e = absurd (omega arith)
  take-more (x ∷ xs) (suc m) n (suc k) e = ap (λ l. x ∷ l) (take-more xs m n k (omega arith))

  take-take : (xs : List A) (m n : ℕ) → n ≤ m → take m (take n xs) ≡ take n xs
  take-take xs m zero h = take-nil m
  take-take [] m (suc n) h = take-nil m
  take-take (x ∷ xs) zero (suc n) h = absurd (omega arith)
  take-take (x ∷ xs) (suc m) (suc n) h = ap (λ l. x ∷ l) (take-take xs m n (omega arith))

  drop-drop : (xs : List A) (m n k : ℕ) → k ≡ m + n → drop n (drop m xs) ≡ drop k xs
  drop-drop xs zero n k e = ap (λ j. drop j xs) (omega arith)
  drop-drop [] (suc m) zero zero e = refl
  drop-drop [] (suc m) zero (suc k) e = refl
  drop-drop [] (suc m) (suc n) zero e = absurd (omega arith)
  drop-drop [] (suc m) (suc n) (suc k) e = refl
  drop-drop (x ∷ xs) (suc m) n zero e = absurd (omega arith)
  drop-drop (x ∷ xs) (suc m) n (suc k) e = drop-drop xs m n k (omega arith)

  take-append : (xs ys : List A) (n k : ℕ) → k ≡ length xs + n → take k (xs ++ ys) ≡ xs ++ take n ys
  take-append [] ys n k e = ap (λ j. take j ys) (omega arith)
  take-append (x ∷ xs) ys n zero e = absurd (omega arith)
  take-append (x ∷ xs) ys n (suc k) e = ap (λ l. x ∷ l) (take-append xs ys n k (omega arith))

-- The two parts make up the header.
parts-first :
    (vid : Option ℕ) (bytes : List ℕ) (n : ℕ)
    → first_room < n
    → first_bytes vid bytes first_room
        ++ copy_bytes bytes (more_from vid first_room) (n - first_room)
      ≡ first_bytes vid bytes n
parts-first none bytes n h = take-more bytes first_room (n - first_room) n (omega (arith, h))
parts-first (some vid) bytes n h =
    let front = take 12 bytes in
    let tag = tag_bytes (vid % 2 ^ 16) in
    let body = drop 12 bytes in
    let rest : List ℕ = take (n - first_room) (drop 58 bytes) in
    let same : drop 46 body ≡ drop 58 bytes = drop-drop bytes 12 46 58 refl in
    let joined : take 46 body ++ rest ≡ take (n - 16) body =
      ap (λ l. take 46 body ++ take (n - first_room) l) (sym same)
      ∙ take-more body 46 (n - first_room) (n - 16) (omega (arith, h)) in
    append_assoc front (tag ++ take 46 body) rest
    ∙ ap (λ l. front ++ l) (append_assoc tag (take 46 body) rest ∙ ap (λ l. tag ++ l) joined)

first_bytes-wire :
    (vid : Option ℕ) (bytes : List ℕ) (n : ℕ)
    → 16 ≤ n
    → 12 ≤ length bytes
    → first_bytes vid bytes n ≡ take n (wire_bytes vid bytes)
first_bytes-wire none bytes n h long = refl
first_bytes-wire (some vid) bytes n h long =
    let front = take 12 bytes in
    let tag = tag_bytes (vid % 2 ^ 16) in
    let body = drop 12 bytes in
    let twelve : length front ≡ 12 = omega (arith, length-take 12 bytes, long) in
    sym (
      take-append front (tag ++ body) (n - 12) n (omega (arith, twelve, h))
      ∙ ap (λ l. front ++ l) (take-append tag body (n - 16) (n - 12) (omega (arith, h))))

append_nil_inner : (xs ys : List ℕ) → xs ++ (ys ++ []) ≡ xs ++ ys
append_nil_inner xs ys = ap (λ l. xs ++ l) (append-nil ys)

next_ne : (size prod : ℕ) → 1 < size → prod < size → get_next_index prod size ≢ prod
next_ne size prod big h e = ground arith

-- If the header has 16 bytes at least and fits two entries, and the ring has two, then the bytes
-- that nx_nic_tso_copy_headers puts into the entries from the producer index on are the first
-- bytes of the frame as it goes on the wire, the tag included that the kernel keeps beside it.
pub copy_headers-wire :
    (size prod : ℕ) (ring : List Entry) (vid : Option ℕ) (bytes : List ℕ) (hdr_len : ℕ)
    → 1 < size
    → prod < size
    → length ring ≡ size
    → 12 ≤ length bytes
    → 16 ≤ hdr_len
    → hdr_len ≤ 126
    → let (prod', ring') = copy_headers size vid bytes hdr_len (prod, ring) in
      bytes_from size ring' prod (header_entries hdr_len) ≡ take hdr_len (wire_bytes vid bytes)
unfolding copy_headers
copy_headers-wire size prod ring vid bytes n big inside sized long least most =
    let next = get_next_index prod size in
    let e1 : Entry = header 2 (first_bytes vid bytes first_room) in
    let more_of : List ℕ = more_bytes vid bytes n first_room in
    let e2 : Entry = header 0 (take entry_size more_of) in
    let whole : take entry_size more_of ≡ more_of =
      take-take (drop (more_from vid first_room) bytes) entry_size (n - first_room)
        (omega (arith, most)) in
    let e : Entry = header 2 (first_bytes vid bytes n) in
    let ring1 = set ring prod e1 in
    let next_in : next < length ring1 = ground (arith, inside, sized, length-set ring prod e1) in
    let wire = first_bytes-wire vid bytes n least long in
    elim (Bool-cases (ltb first_room n)) [
      | inl more ↦
          let two : get_elem? (set ring1 next e2) prod ≡ some e1 =
            get_elem?-set_ne ring1 e2 (next_ne size prod big inside)
            ∙ get_elem?-set_self ring prod e1 (omega (arith, inside, sized)) in
          let last : get_elem? (set ring1 next e2) next ≡ some e2 =
            get_elem?-set_self ring1 next e2 next_in in
          rw (more, two, last)
            (append_nil_inner (first_bytes vid bytes first_room) (take entry_size more_of)
              ∙ ap (λ l. first_bytes vid bytes first_room ++ l) whole
              ∙ (parts-first vid bytes n (ltb→lt first_room n more) ∙ wire))
      | inr one ↦
          rw (one, get_elem?-set_self ring prod e (omega (arith, inside, sized)))
            (append-nil (first_bytes vid bytes n) ∙ wire)
    ]
