-- ===== src/Client/Requests.antt =====
-- Requests of rclrs/src/client.rs over time. A request is sent by `rcl_send_request` and its
-- callback or future is stored by a second step, under another lock; the executor takes responses
-- before, between and after these steps.
pub mod Invariant
pub mod Delivered
use ros2_rust.Prelude.{
  ℕ, suc, ◌+◌, ◌≤◌, ◌≡◌, ◌≢◌, refl, ◌∙◌, sym, ap, subst, Bool, true, false, Option, none, some,
  List, [], ◌∷◌, ◌++◌, ◌||◌, map, Result, ok, err, if◌then◌else◌, arith, Bool-cases, inl, inr, ◌⊎◌,
}
use ros2_rust.Prelude.Int.{ℤ, pos, beq_ℤ, beq_ℤ_iff}
use ros2_rust.Parameter.Utf8.{Utf8}
use ros2_rust.ReturnCode.{RclCall, RclrsError, to_rclrs_result}
use ros2_rust.Client.{
  Client, RequestMap, Delivery, called, sent, insert, remove, new_client, dispatch, take_response,
  execute, execute_taken, async_send_request_with_callback, call_async, give, give_future,
}

-- A request that `rcl_send_request` has sent: by `async_send_request_with_callback` with a callback,
-- or by `call_async` with the sender of a future.
pub data Way : Type 0 where
  by_callback by_future : Way

pub record Sent : Type 0 where
  pub sending : RclCall ℤ
  pub way : Way
  pub name : ℕ

-- The client, the numbers that `rcl` has given to its requests, the requests that are sent and not stored yet, and the
-- deliveries made, with their numbers.
pub record World (Response : Type 0) : Type 0 where
  pub client : Client
  pub used : List ℤ
  pub pending : List Sent
  pub log : List (ℤ × Delivery Response)

-- the end of the call that sent the request
abbrev pub finish : ⦃u : Utf8⦄ → Way → RclCall ℤ → ℕ → Client → Client
finish Way.by_callback sending name c = (async_send_request_with_callback sending name c).1
finish Way.by_future sending name c = (call_async sending name c).1

abbrev pub is_used : ℤ → List ℤ → Bool
is_used k [] = false
is_used k (id ∷ ids) = beq_ℤ id k || is_used k ids

abbrev pub one_if : Bool → ℕ
one_if true = 1
one_if false = 0

abbrev pub occupied : Option ℕ → ℕ
occupied none = 0
occupied (some n) = 1

abbrev pub sent_as : ℤ → List Sent → ℕ
sent_as k [] = 0
sent_as k (s ∷ ss) = one_if (beq_ℤ s.sending.handle k) + sent_as k ss

pub sent_as-append : (k : ℤ) (a b : List Sent) → sent_as k (a ++ b) ≡ sent_as k a + sent_as k b
sent_as-append k [] b = omega arith
sent_as-append k (s ∷ a) b = omega (arith, sent_as-append k a b)

-- What waits in a client for a number.
unfoldable pub waiting : ℤ → Client → ℕ
waiting k c = occupied (c.requests k) + occupied (c.futures k)

inserted :
    (k id : ℤ) (n : ℕ) (m : RequestMap)
    → occupied (insert id n m k) ≤ occupied (m k) + one_if (beq_ℤ id k)
unfolding insert
inserted k id n m = elim (Bool-cases (beq_ℤ id k)) [
  | inl e ↦ rw e (omega arith)
  | inr e ↦ rw e (omega arith)
]

pub finish-waiting :
    ⦃u : Utf8⦄ (k : ℤ) (way : Way) (s : RclCall ℤ) (n : ℕ) (c : Client)
    → waiting k (finish way s n c) ≤ waiting k c + one_if (beq_ℤ s.handle k)
unfolding async_send_request_with_callback call_async waiting
finish-waiting k Way.by_callback s n c = ground (arith, inserted k s.handle n c.requests)
finish-waiting k Way.by_future s n c = ground (arith, inserted k s.handle n c.futures)

removed :
    (k id : ℤ) (n : ℕ) (m : RequestMap)
    → m id ≡ some n
    → occupied (remove id m k) + one_if (beq_ℤ id k) ≤ occupied (m k)
unfolding remove
removed k id n m e = elim (Bool-cases (beq_ℤ id k)) [
  | inl b ↦ rw (b, sym (ap m ((beq_ℤ_iff id k).0 b)), e) (omega arith)
  | inr b ↦ rw b (omega arith)
]

module _ {Response : Type 0} where
  abbrev pub delivered : ℤ → List (ℤ × Delivery Response) → ℕ
  delivered k [] = 0
  delivered k ((id, d) ∷ ds) = one_if (beq_ℤ id k) + delivered k ds

  abbrev pub logged :
      ℤ → List (Delivery Response) → List (ℤ × Delivery Response) → List (ℤ × Delivery Response)
  logged id [] log = log
  logged id (d ∷ ds) log = (id, d) ∷ logged id ds log

  pub give-waiting :
      (k : ℤ) (callback future : Option ℕ) (id : ℤ) (res : Response) (c : Client)
      (log : List (ℤ × Delivery Response))
      → c.requests id ≡ callback
      → c.futures id ≡ future
      → waiting k (give callback id res c).0
          + delivered k (logged id (give callback id res c).1 log)
        ≤ waiting k c + delivered k log
  unfolding waiting remove
  give-waiting k (some callback) future id res c log e f =
      omega (arith, removed k id callback c.requests e)
  give-waiting k none (some future) id res c log e f =
      rw f (omega (arith, removed k id future c.futures f))
  give-waiting k none none id res c log e f = rw f (omega arith)

  -- What there is of a number: sent and not stored, waiting, or delivered.
  unfoldable pub weight : ℤ → World Response → ℕ
  weight k w = sent_as k w.pending + waiting k w.client + delivered k w.log

  -- Each number is in one place, once; and those that `rcl` has not used are in none.
  pub record IsOnce (w : World Response) : Type 0 where
    pub once : (k : ℤ) → weight k w ≤ 1
    pub fresh : (k : ℤ) → is_used k w.used ≡ false → weight k w ≡ 0

  abbrev pub new_world : World Response
  new_world = record { client = new_client; used = []; pending = []; log = [] }

  module _ ⦃u : Utf8⦄ where
    -- One step. `rcl` gives each request of a client a number that no other has; in what order it
    -- does is left open.
    pub data Step (w w' : World Response) : Type 0 where
      sends :
          (s : Sent)
          → is_used s.sending.handle w.used ≡ false
          → w' ≡ record w { used = s.sending.handle ∷ w.used; pending = s ∷ w.pending }
          → Step w w'
      finishes :
          (before after : List Sent) (s : Sent)
          → w.pending ≡ before ++ (s ∷ after)
          → w' ≡ record w {
            client = finish s.way s.sending s.name w.client;
            pending = before ++ after;
          }
          → Step w w'
      executes :
          (taking : RclCall (Response × ℤ))
          → w' ≡ record w {
            client = (execute taking w.client).1;
            log = logged taking.handle.1 (execute taking w.client).2 w.log;
          }
          → Step w w'

    pub data Reach (w : World Response) : World Response → Type 0 where
      here : Reach w w
      then_step :
          {w'' : World Response} (w' : World Response) → Reach w w' → Step w' w'' → Reach w w''
