-- ===== src/Protocol/Pending.antt =====
-- src/protocol.rs: the table of calls that wait for a response, `call`, and what `handle_datagram`
-- does with a frame. A call's oneshot channel is a number, fresh for each call.
use auth_kademlia.Prelude.{
  ℕ, suc, ◌+◌, ◌%◌, ◌^◌, ℕ_discrete, true, false, not, Option, none, some, List, [], ◌∷◌,
  if◌then◌else◌,
}
use auth_kademlia.Prelude.Assoc
use auth_kademlia.Prelude.Bytes.{Bytes}
use auth_kademlia.Node.{Node}
use auth_kademlia.Routing.Table.{Outcome, done}
use auth_kademlia.Protocol.{SignatureVerifierHandler, CacheOps, KademliaProtocol, source_of}
use auth_kademlia.Protocol.Chain.{and_then}
use auth_kademlia.Protocol.Message.{RpcMessage, Frame, pong}
use auth_kademlia.Protocol.Requests.{Handled, dispatch_request}

-- `delivered` lists what was sent on the channels.
pub record Calls : Type 0 where
  pub next_msg_id : ℕ
  pub pending : List (ℕ × ℕ)
  pub next_channel : ℕ
  pub delivered : List (ℕ × RpcMessage)

unfoldable pub no_calls : Calls
no_calls = record { next_msg_id = 0; pending = []; next_channel = 0; delivered = [] }

-- `fetch_add` on an `AtomicU32`.
unfoldable pub next_id : ℕ → ℕ
next_id n = (n + 1) % 2 ^ 32

-- The start of `call`: the request's frame, once its channel is in the table.
unfoldable pub begin_call : Calls → RpcMessage → Calls × Frame
unfolding next_id
begin_call c message = (
  record c {
    next_msg_id = next_id c.next_msg_id;
    pending = Assoc.put ℕ_discrete c.next_msg_id c.next_channel c.pending;
    next_channel = suc c.next_channel;
  },
  record { msg_id = c.next_msg_id; is_request = true; message = message },
)

-- The end of `call` after a failed send, a closed channel or the timeout.
unfoldable pub end_call : Calls → ℕ → Calls
end_call c msg_id = record c { pending = Assoc.erase ℕ_discrete msg_id c.pending }

-- A response, sent on the channel that was taken from the table.
unfoldable pub send_on : Calls → ℕ → RpcMessage → Option ℕ → Calls
unfolding end_call
send_on c msg_id message none = c
send_on c msg_id message (some channel) = record (end_call c msg_id) {
  delivered = (channel, message) ∷ c.delivered;
}

unfoldable pub deliver : Calls → ℕ → RpcMessage → Calls
unfolding send_on
deliver c msg_id message = send_on c msg_id message (Assoc.find ℕ_discrete msg_id c.pending)

-- The nodes that a response hands to `welcome_if_new`.
unfoldable pub welcomes_of : Bytes × ℕ → RpcMessage → List Node
welcomes_of addr (pong sender_id) = source_of sender_id addr ∷ []
welcomes_of addr _ = []

-- A frame handled: the table of calls, the protocol's part, and the frame that is sent back.
pub record Received (Cache : Type 0) : Type 0 where
  pub calls : Calls
  pub handled : Handled Cache
  pub reply : Option Frame

unfoldable pub to_frame : ℕ → Option RpcMessage → Option Frame
to_frame msg_id none = none
to_frame msg_id (some message) =
    some (record { msg_id = msg_id; is_request = false; message = message })

module _ {Cache : Type 0} (ops : CacheOps Cache) (handler : SignatureVerifierHandler)
    (status_key : Bytes) where
  -- `handle_datagram` once it has a frame.
  unfoldable pub handle_frame :
      KademliaProtocol Cache → Calls → ℕ → Bytes × ℕ → Frame → Outcome (Received Cache)
  unfolding deliver welcomes_of to_frame
  handle_frame p c now addr frame =
      if not frame.is_request
      then done (record {
        calls = deliver c frame.msg_id frame.message;
        handled = record {
          after = p;
          welcomes = welcomes_of addr frame.message;
          pings = none;
          stores = [];
          response = none;
        };
        reply = none;
      })
      else and_then (dispatch_request ops handler status_key p now addr frame.message)
          (λ h. done (record { calls = c; handled = h; reply = to_frame frame.msg_id h.response }))

-- What happens to the table of calls.
pub data Step : Calls → Calls → Type 0 where
  begins : (c : Calls) (message : RpcMessage) → Step c (begin_call c message).0
  gives_up : (c : Calls) (msg_id : ℕ) → Step c (end_call c msg_id)
  receives : (c : Calls) (msg_id : ℕ) (message : RpcMessage) → Step c (deliver c msg_id message)

pub data Run : Calls → Type 0 where
  starts : Run no_calls
  steps : {c d : Calls} → Run c → Step c d → Run d
