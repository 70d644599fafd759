-- ===== src/Reassembly/Store.antt =====
-- One fragment into its entry, as bytes of the packet that is put together.
use chamlon.Base.{
  ℕ, ◌+◌, ◌≤◌, ◌≡◌, refl, sym, ap₂, ◌∙◌, ◌⊎◌, inr, true, false, List, ◌++◌, some, arith, length,
  take, drop, length-append, length-take, length-drop, take-append_add, take-take_append, take-add,
  take_all,
}
use chamlon.Wire.{TunnelHeader, more_fragments}
use chamlon.Reassembly.{
  Entry, stored, delivered, max_packet_size, memcpy, write_tun, complete, store,
}

module _ (pkt : List ℕ) where
  -- The entry holds the first `o` bytes of the packet.
  pub record Progress (o : ℕ) (e : Entry) : Type 0 where
    pub active : e.is_active ≡ true
    pub expects : (e.expected_length ≡ 0) ⊎ (e.expected_length ≡ length pkt)
    pub received : e.received_bytes ≡ o
    pub room : length e.buffer ≡ max_packet_size
    pub prefix : take o e.buffer ≡ take o pkt

  -- A fragment of `chunk` bytes of the packet at `o`, with `n` bytes of payload: what is behind
  -- the chunk is padding, and only the last fragment has any.
  pub record IsFragment (o chunk n : ℕ) (h : TunnelHeader) (payload : List ℕ) : Type 0 where
    pub offset : h.fragment_offset ≡ o
    pub total : h.total_ip_len ≡ length pkt
    pub size : length payload ≡ n
    pub covers : chunk ≤ n
    pub inside : o + chunk ≤ length pkt
    pub fits : o + n ≤ max_packet_size
    pub bytes : take chunk payload ≡ take chunk (drop o pkt)

  module _ {o chunk n : ℕ} {h : TunnelHeader} {payload : List ℕ}
      (f : IsFragment o chunk n h payload) {e : Entry} (p : Progress o e) where
    abbrev copied : List ℕ
    copied = take o e.buffer ++ (take n payload ++ drop (o + n) e.buffer)

    memcpy_lem : memcpy e.buffer h.fragment_offset payload n ≡ some copied
    unfolding memcpy
    memcpy_lem = ground (arith, f.offset, f.size, f.fits, p.room)

    length-copied : length copied ≡ max_packet_size
    length-copied = omega (
      arith,
      length-append (take o e.buffer) (take n payload ++ drop (o + n) e.buffer),
      length-append (take n payload) (drop (o + n) e.buffer),
      length-take o e.buffer,
      length-take n payload,
      length-drop (o + n) e.buffer,
      f.size,
      f.fits,
      p.room,
    )

    copied-prefix : take (o + chunk) copied ≡ take (o + chunk) pkt
    copied-prefix =
        let filled : length (take o e.buffer) ≡ o =
          omega (arith, length-take o e.buffer, p.room, f.fits) in
        let read : n ≤ length payload = omega (arith, f.size) in
        let tail = take-take_append chunk n payload (drop (o + n) e.buffer) f.covers read in
        take-append_add o chunk (take o e.buffer) (take n payload ++ drop (o + n) e.buffer) filled
        ∙ ap₂ ◌++◌ p.prefix (tail ∙ f.bytes)
        ∙ sym (take-add o chunk pkt)

    -- The entry when the bytes are in it.
    abbrev pub filled : Entry
    filled = record e { expected_length = length pkt; buffer = copied; received_bytes = o + n }

    store-filled : store h payload n e ≡ complete h filled
    unfolding store
    store-filled = rw memcpy_lem (ground (arith, f.offset, f.fits, f.total, p.received, p.expects))

    -- A fragment with more to come is stored.
    pub store_middle :
        h.flags ≡ more_fragments
        → n ≡ chunk
        → (store h payload n e ≡ (stored, filled)) × Progress (o + chunk) filled
    unfolding complete
    store_middle more full = (
      store-filled ∙ ground (arith, more),
      record {
        active = p.active;
        expects = inr refl;
        received = omega arith;
        room = length-copied;
        prefix = copied-prefix;
      },
    )

    -- The last one completes the packet.
    pub store_last :
        h.flags ≡ 0
        → o + chunk ≡ length pkt
        → store h payload n e ≡ (delivered pkt, record filled { is_active = false })
    unfolding complete write_tun
    store_last last all =
        let whole : take (length pkt) copied ≡ pkt =
          rw (← all) (copied-prefix ∙ rw all (take_all (length pkt) pkt (omega arith))) in
        let small : length pkt ≤ length copied = omega (arith, length-copied, f.fits, f.covers) in
        let enough : length pkt ≤ o + n = omega (arith, f.covers) in
        store-filled ∙ ground (arith, last, whole, small, enough)
