-- ===== src/Sender/Rekey.antt =====
-- The event loop and the sender thread during a change of keys, in any order of their steps: the end of
-- `rehandshake_client_with_state` in chamlon_client/src/vpn_handshake.c, the packets that the event loop
-- seals, and the dummy packets and the hand-over of the sender thread. `used` records the keys and
-- numbers of all packets so far. The copies of one key are one step.
use chamlon.Base.{
  ℕ, suc, ◌+◌, ◌<◌, ◌^◌, ◌≡◌, ◌≢◌, refl, sym, ◌∙◌, subst, inl, inr, Bool-cases, ◌==◌, Bool, true,
  false, List, [], ◌∷◌, arith,
}
use chamlon.Crypto.{Sodium}
use chamlon.Sessions.{letter_y}
use chamlon.Datagram.{next_seq}
use chamlon.Sender.{SenderArgs, prepare_dummy_static_parts, take_keys, send_one_dummy}

-- A key and a sequence number: what fixes the nonce of a packet.
abbrev pub Use : Type 0
Use = List ℕ × ℕ

pub record World : Type 0 where
  pub sender : SenderArgs
  -- `k_send` and `session_id` of `server_t`, for the packets of the event loop.
  pub k_send : List ℕ
  pub session_id : List ℕ
  -- The event loop is between its two steps.
  pub offering : Bool
  pub used : List Use

-- A packet that the event loop seals: from the TUN device, a keepalive or a disconnect.
unfoldable pub seal_real : World → World
seal_real w = record w {
  sender = record w.sender { send_seq = next_seq w.sender.send_seq };
  used = (w.k_send, w.sender.send_seq) ∷ w.used;
}

-- A handshake has succeeded: its keys are copied, and the counter starts again.
unfoldable pub apply_keys : List ℕ → List ℕ → World → World
apply_keys key id w = record w {
  k_send = key;
  session_id = id;
  sender = record w.sender { send_seq = 0 };
  offering = true;
}

-- The keys are left for the sender thread.
unfoldable pub offer_keys : World → World
offer_keys w = record w {
  sender = record w.sender {
    pending_k_send = w.k_send;
    pending_session_id = w.session_id;
    pending_rekey = true;
  };
  offering = false;
}

-- The sender thread, with constant bit rate, seals a dummy packet.
unfoldable pub seal_dummy : Sodium → World → World
seal_dummy c w = record w {
  sender = (send_one_dummy c w.sender).1;
  used = (w.sender.k_send, w.sender.send_seq) ∷ w.used;
}

unfoldable pub swap_keys : World → World
swap_keys w = record w { sender = take_keys w.sender }

-- One step of one of the two threads.
pub data Step (c : Sodium) (w : World) : World → Type 0 where
  real : w.offering ≡ false → Step c w (seal_real w)
  applied : (key id : List ℕ) → w.offering ≡ false → Step c w (apply_keys key id w)
  offered : w.offering ≡ true → Step c w (offer_keys w)
  dummy : (w.sender.argv_cbr == letter_y) ≡ true → Step c w (seal_dummy c w)
  swapped : Step c w (swap_keys w)

-- The key was not used with any number.
abbrev pub NewKey : List ℕ → List Use → Type 0
NewKey key [] = Unit
NewKey key ((k, n) ∷ used) = (k ≢ key) × NewKey key used

-- The key was used with smaller numbers only.
abbrev pub Below : List ℕ → ℕ → List Use → Type 0
Below key m [] = Unit
Below key m ((k, n) ∷ used) = (k ≡ key → n < m) × Below key m used

-- The key was not used with the number.
abbrev pub Unused : List ℕ → ℕ → List Use → Type 0
Unused key m [] = Unit
Unused key m ((k, n) ∷ used) = (k ≡ key → n ≢ m) × Unused key m used

abbrev pub AllDistinct : List Use → Type 0
AllDistinct [] = Unit
AllDistinct ((k, n) ∷ used) = Unused k n used × AllDistinct used

Below-Unused : (key : List ℕ) (m : ℕ) (used : List Use) → Below key m used → Unused key m used
Below-Unused key m [] h = tt
Below-Unused key m ((k, n) ∷ used) h =
    (λ e same. let less = h.0 e in omega arith, Below-Unused key m used h.1)

Below-suc : (key : List ℕ) (m : ℕ) (used : List Use) → Below key m used → Below key (suc m) used
Below-suc key m [] h = tt
Below-suc key m ((k, n) ∷ used) h = (λ e. let less = h.0 e in omega arith, Below-suc key m used h.1)

NewKey-Below : (key : List ℕ) (used : List Use) → NewKey key used → Below key 0 used
NewKey-Below key [] h = tt
NewKey-Below key ((k, n) ∷ used) h = (λ e. absurd (h.0 e), NewKey-Below key used h.1)

-- A step that keeps to the rules: no number wraps, a handshake gives a new key, and the sender thread
-- seals a dummy packet only while no change of keys is open.
abbrev pub Calm : {c : Sodium} {w w' : World} → Step c w w' → Type 0
Calm {w} (real o) = w.sender.send_seq + 1 < 2 ^ 64
Calm {w} (applied key id o) = NewKey key w.used
Calm (offered o) = Unit
Calm {w} (dummy y) =
    (w.offering ≡ false) × (w.sender.pending_rekey ≡ false) × (w.sender.send_seq + 1 < 2 ^ 64)
Calm swapped = Unit

-- What holds between two steps of a calm run.
pub record IsSafe (w : World) : Type 0 where
  pub distinct : AllDistinct w.used
  pub below : Below w.k_send w.sender.send_seq w.used
  pub handed :
      w.offering ≡ false → w.sender.pending_rekey ≡ true → w.sender.pending_k_send ≡ w.k_send
  pub current : w.offering ≡ false → w.sender.pending_rekey ≡ false → w.sender.k_send ≡ w.k_send

next_seq_lem : (n : ℕ) → n + 1 < 2 ^ 64 → next_seq n ≡ suc n
next_seq_lem n h = omega arith

-- A packet that is sealed under the key of the event loop.
sealed-IsSafe :
    (w : World)
    → IsSafe w
    → w.sender.send_seq + 1 < 2 ^ 64
    → AllDistinct ((w.k_send, w.sender.send_seq) ∷ w.used)
      × Below w.k_send (next_seq w.sender.send_seq) ((w.k_send, w.sender.send_seq) ∷ w.used)
sealed-IsSafe w s h =
    let n = w.sender.send_seq in
    (
      (Below-Unused w.k_send n w.used s.below, s.distinct),
      subst (λ m. Below w.k_send m ((w.k_send, n) ∷ w.used)) (sym (next_seq_lem n h))
          (λ e. omega arith, Below-suc w.k_send n w.used s.below),
    )

send_one_dummy_keys :
    (c : Sodium) (s : SenderArgs)
    → let s' = (send_one_dummy c s).1 in
      (s'.k_send ≡ s.k_send)
      × (s'.pending_rekey ≡ s.pending_rekey)
      × (s'.pending_k_send ≡ s.pending_k_send)
      × (s'.send_seq ≡ next_seq s.send_seq)
unfolding send_one_dummy
send_one_dummy_keys c s = ground arith

take_keys_keys :
    (s : SenderArgs)
    → let s' = take_keys s in
      (s'.pending_rekey ≡ false)
      × (s.pending_rekey ≡ true → s'.k_send ≡ s.pending_k_send)
      × (s.pending_rekey ≡ false → s'.k_send ≡ s.k_send)
      × (s'.send_seq ≡ s.send_seq)
unfolding take_keys prepare_dummy_static_parts
take_keys_keys s = ground arith

Step-IsSafe : {c : Sodium} {w w' : World} (st : Step c w w') → Calm st → IsSafe w → IsSafe w'
unfolding seal_real apply_keys offer_keys seal_dummy swap_keys take_keys send_one_dummy
Step-IsSafe {w = w} (real o) calm s =
    let (d, b) = sealed-IsSafe w s calm in
    record { distinct = d; below = b; handed = s.handed; current = s.current }
Step-IsSafe {w = w} (applied key id o) calm s = record {
  distinct = s.distinct;
  below = NewKey-Below key w.used calm;
  handed = λ e. cc;
  current = λ e. cc;
}
Step-IsSafe (offered o) calm s = record {
  distinct = s.distinct;
  below = s.below;
  handed = λ e f. refl;
  current = λ e f. cc;
}
Step-IsSafe {c} {w} (dummy y) calm s =
    let (k, p, q, n) = send_one_dummy_keys c w.sender in
    let own = s.current calm.0 calm.1 in
    let (d, b) = sealed-IsSafe w s calm.2 in
    record {
      distinct = subst (λ key. AllDistinct ((key, w.sender.send_seq) ∷ w.used)) (sym own) d;
      below =
          subst (λ m. Below w.k_send m (seal_dummy c w).used) (sym n)
            (subst
              (λ key.
                Below w.k_send (next_seq w.sender.send_seq) ((key, w.sender.send_seq) ∷ w.used))
              (sym own) b);
      handed = λ e f. q ∙ s.handed e (sym p ∙ f);
      current = λ e f. k ∙ s.current e (sym p ∙ f);
    }
Step-IsSafe {w = w} swapped calm s =
    let (off, taken, kept, n) = take_keys_keys w.sender in
    record {
      distinct = s.distinct;
      below = subst (λ m. Below w.k_send m w.used) (sym n) s.below;
      handed = λ e f. let no = sym off ∙ f in cc;
      current = λ e f. elim (Bool-cases w.sender.pending_rekey) [
        | inl t ↦ taken t ∙ s.handed e t
        | inr t ↦ kept t ∙ s.current e t
      ];
    }

-- The worlds that calm runs lead to.
pub data Run (c : Sodium) (w0 : World) : World → Type 0 where
  here : Run c w0 w0
  next : {w w' : World} → Run c w0 w → (st : Step c w w') → Calm st → Run c w0 w'

Run-IsSafe : {c : Sodium} {w0 w : World} → IsSafe w0 → Run c w0 w → IsSafe w
Run-IsSafe s here = s
Run-IsSafe s (next r st calm) = Step-IsSafe st calm (Run-IsSafe s r)

-- After any steps of the two threads in any order, no two packets were sealed with the same key and
-- number, from a world in which that holds, in which the key of the event loop was used with numbers below the
-- counter, and in which no change of keys is open and the two keys are the same. This is when no number wraps, each handshake
-- gives a key that was not used, and the sender thread seals no dummy packet while a change of keys is open.
pub Run-AllDistinct :
    {c : Sodium} {w0 w : World}
    → AllDistinct w0.used
    → Below w0.k_send w0.sender.send_seq w0.used
    → w0.sender.pending_rekey ≡ false
    → w0.sender.k_send ≡ w0.k_send
    → Run c w0 w
    → AllDistinct w.used
Run-AllDistinct d b p e r =
    (Run-IsSafe
      (record {
        distinct = d;
        below = b;
        handed = λ o f. let no = sym p ∙ f in cc;
        current = λ o f. e;
      })
      r).distinct
