-- ===== src/Protocol/Delivery.antt =====
-- Which call a response goes to, and that no call gets two.
use auth_kademlia.Prelude.{
  ℕ, suc, ◌+◌, ◌%◌, ◌^◌, ◌≤◌, ◌<◌, ◌≡◌, refl, sym, ap, ◌∙◌, inl, inr, none, some, List, [], ◌∷◌,
  ◌==◌, ℕ_discrete, All, All-map, arith, Bool-cases, Option-cases, if◌then◌else◌,
}
use auth_kademlia.Prelude.Assoc
use auth_kademlia.Protocol.Message.{RpcMessage}
use auth_kademlia.Protocol.Pending.{
  Calls, no_calls, next_id, begin_call, end_call, send_on, deliver, begins, gives_up, receives, Run,
  starts, steps,
}

-- How often a channel waits, and how often it was sent a response.
unfoldable pub waiting : ℕ → List (ℕ × ℕ) → ℕ
waiting channel [] = 0
waiting channel ((msg_id, ch) ∷ pending) =
    let rest = waiting channel pending in if ch == channel then suc rest else rest

unfoldable pub responses : ℕ → List (ℕ × RpcMessage) → ℕ
responses channel [] = 0
responses channel ((ch, message) ∷ delivered) =
    let rest = responses channel delivered in if ch == channel then suc rest else rest

waiting-erase-le :
    (channel k : ℕ) (m : List (ℕ × ℕ))
    → waiting channel (Assoc.erase ℕ_discrete k m) ≤ waiting channel m
unfolding waiting Assoc.erase
waiting-erase-le channel k [] = omega arith
waiting-erase-le channel k ((j, ch) ∷ m) = ground (arith, waiting-erase-le channel k m)

-- Taking a channel from the table.
waiting-erase-lt :
    (k ch : ℕ) (m : List (ℕ × ℕ))
    → Assoc.find ℕ_discrete k m ≡ some ch
    → waiting ch (Assoc.erase ℕ_discrete k m) < waiting ch m
unfolding waiting Assoc.erase Assoc.find
waiting-erase-lt k ch [] h = absurd (ground arith)
waiting-erase-lt k ch ((j, c) ∷ m) h =
    ground (arith, waiting-erase-lt k ch m, waiting-erase-le ch k m)

waiting_fresh :
    (n : ℕ) (m : List (ℕ × ℕ))
    → All (λ (e : ℕ × ℕ). (e.0 ≡ e.1 % 2 ^ 32) × (e.1 < n)) m
    → waiting n m ≡ 0
unfolding waiting
waiting_fresh n [] h = refl
waiting_fresh n ((j, ch) ∷ m) h = ground (arith, waiting_fresh n m h.1, h.0.1)

responses_fresh :
    (n : ℕ) (m : List (ℕ × RpcMessage))
    → All (λ (e : ℕ × RpcMessage). e.0 < n) m
    → responses n m ≡ 0
unfolding responses
responses_fresh n [] h = refl
responses_fresh n ((ch, message) ∷ m) h = ground (arith, responses_fresh n m h.1, h.0)

-- A table in order: the number of a call is the one of its channel modulo 2 ^ 32, and each channel
-- waits once and was sent nothing, or was sent one response at most.
pub record IsCalls (c : Calls) : Type 0 where
  pub next : c.next_msg_id ≡ c.next_channel % 2 ^ 32
  pub numbered : All (λ (e : ℕ × ℕ). (e.0 ≡ e.1 % 2 ^ 32) × (e.1 < c.next_channel)) c.pending
  pub old : All (λ (e : ℕ × RpcMessage). e.0 < c.next_channel) c.delivered
  pub once : (channel : ℕ) → waiting channel c.pending + responses channel c.delivered ≤ 1

begin_call-IsCalls :
    (c : Calls) (message : RpcMessage) → IsCalls c → IsCalls (begin_call c message).0
unfolding begin_call next_id Assoc.put waiting
begin_call-IsCalls c message v = record {
  next = unfold next_id in omega (arith, v.next);
  numbered = (
    (v.next, omega arith),
    All-map _ _ (λ e h. (h.0, omega (arith, h.1))) _
        (Assoc.erase-All ℕ_discrete _ c.next_msg_id c.pending v.numbered),
  );
  old = All-map _ _ (λ e h. omega (arith, h)) c.delivered v.old;
  once = λ channel. elim (Bool-cases (c.next_channel == channel)) [
    | inr old ↦
        rw old (omega (arith, v.once channel, waiting-erase-le channel c.next_msg_id c.pending))
    | inl fresh ↦
        let same : c.next_channel ≡ channel = ground arith in
        let none_waits = waiting_fresh c.next_channel c.pending v.numbered in
        let none_sent = responses_fresh c.next_channel c.delivered v.old in
        rw fresh (
          omega (
            arith,
            waiting-erase-le channel c.next_msg_id c.pending,
            ap (λ n. waiting n c.pending) same ∙ refl,
            ap (λ n. responses n c.delivered) same ∙ refl,
            none_waits,
            none_sent,
          ))
  ];
}

end_call-IsCalls : (c : Calls) (msg_id : ℕ) → IsCalls c → IsCalls (end_call c msg_id)
unfolding end_call
end_call-IsCalls c msg_id v = record {
  next = v.next;
  numbered = Assoc.erase-All ℕ_discrete _ msg_id c.pending v.numbered;
  old = v.old;
  once = λ channel. omega (arith, v.once channel, waiting-erase-le channel msg_id c.pending);
}

-- The channel that a number reads as is that of a call with this number.
find-numbered :
    (n k ch : ℕ) (m : List (ℕ × ℕ))
    → All (λ (e : ℕ × ℕ). (e.0 ≡ e.1 % 2 ^ 32) × (e.1 < n)) m
    → Assoc.find ℕ_discrete k m ≡ some ch
    → (k ≡ ch % 2 ^ 32) × (ch < n)
unfolding Assoc.find
find-numbered n k ch [] h e = absurd (ground arith)
find-numbered n k ch ((j, c) ∷ m) h e = elim (ℕ_discrete j k) [
  | yes same ↦
      let taken : c ≡ ch = ground (arith, same) in
      (sym same ∙ h.0.0 ∙ ap (λ x. x % 2 ^ 32) taken, omega (arith, h.0.1))
  | no differs ↦ find-numbered n k ch m h.1 (ground arith)
]

deliver-IsCalls :
    (c : Calls) (msg_id : ℕ) (message : RpcMessage) → IsCalls c → IsCalls (deliver c msg_id message)
unfolding deliver send_on end_call responses
deliver-IsCalls c msg_id message v = elim (Option-cases (Assoc.find ℕ_discrete msg_id c.pending)) [
  | inl e ↦ rw (e, deliver) v
  | inr (ch, e) ↦
      rw (e, deliver)
        (record {
          next = v.next;
          numbered = Assoc.erase-All ℕ_discrete _ msg_id c.pending v.numbered;
          old = ((find-numbered c.next_channel msg_id ch c.pending v.numbered e).1, v.old);
          once = λ channel. ground (
            arith,
            v.once channel,
            waiting-erase-le channel msg_id c.pending,
            waiting-erase-lt msg_id ch c.pending e,
          );
        })
]

-- Every table that a run reaches is in order.
reached-IsCalls : (c : Calls) → Run c → IsCalls c
unfolding no_calls waiting responses
reached-IsCalls c starts = record {
  next = ground arith;
  numbered = tt;
  old = tt;
  once = λ channel. omega arith;
}
reached-IsCalls c (steps before (begins d message)) =
    begin_call-IsCalls d message (reached-IsCalls d before)
reached-IsCalls c (steps before (gives_up d msg_id)) =
    end_call-IsCalls d msg_id (reached-IsCalls d before)
reached-IsCalls c (steps before (receives d msg_id message)) =
    deliver-IsCalls d msg_id message (reached-IsCalls d before)

-- Where a response goes: to the one call that waits under its number and was sent none, which is
-- begun with this number and then waits no more; or to no call, where none waits under it.
pub data Goes (c : Calls) (msg_id : ℕ) (message : RpcMessage) : Type 0 where
  lost :
      Assoc.find ℕ_discrete msg_id c.pending ≡ none
      → deliver c msg_id message ≡ c
      → Goes c msg_id message
  sent :
      (channel : ℕ)
      → Assoc.find ℕ_discrete msg_id c.pending ≡ some channel
      → msg_id ≡ channel % 2 ^ 32
      → channel < c.next_channel
      → responses channel c.delivered ≡ 0
      → (deliver c msg_id message).delivered ≡ (channel, message) ∷ c.delivered
      → waiting channel (deliver c msg_id message).pending ≡ 0
      → Goes c msg_id message

-- After any run of calls, ends of calls and responses, a response goes to the call that waits under
-- its number, the low 32 bits of the count of calls before it. That call was sent nothing before and
-- waits no more, so no call is sent two responses. Without such a call nothing changes.
pub deliver-Goes : (c : Calls) (msg_id : ℕ) (message : RpcMessage) → Run c → Goes c msg_id message
unfolding deliver send_on end_call
deliver-Goes c msg_id message run = elim (Option-cases (Assoc.find ℕ_discrete msg_id c.pending)) [
  | inl e ↦ lost e (rw (e, deliver) refl)
  | inr (ch, e) ↦
      let v = reached-IsCalls c run in
      let (number, begun) = find-numbered c.next_channel msg_id ch c.pending v.numbered e in
      let fewer = waiting-erase-lt msg_id ch c.pending e in
      sent ch e number begun (omega (arith, v.once ch, fewer)) (rw (e, deliver) refl)
        (rw (e, deliver) (omega (arith, v.once ch, fewer)))
]
