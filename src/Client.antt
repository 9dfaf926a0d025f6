-- ===== src/Client.antt =====
-- protocol/dubbo/client/dubbo_client.go: the calls of `Send` that wait on one client, the answers that
-- `RspCallBack` hands to them, and closing and reopening. A call is named by a number, its
-- `RespondResult` with it. Each step is what a goroutine does between two points where it can wait:
-- for `mapMutex`, or for the other end of an unbuffered channel. Dialling is a step's choice.
pub mod Correlation
pub mod Blocked
pub mod Reopened
pub mod Manager
use mesher.Prelude.{
  ℕ, suc, ◌<◌, ◌≡◌, ◌≢◌, ◌⊎◌, List, [], ◌∷◌, Option, none, some, Bool, true, false, ◌==◌,
  if◌then◌else◌,
}
use mesher.Message.{DubboRsp}

-- Where a call of `Send` stands: before `AddWaitMsg`, in the select, after it by the channel or by the
-- timer, before `RemoveWaitMsg` (with `timeout`), or done with a response (which may be nil) or with an
-- error.
pub data Phase : Type 0 where
  preparing : Phase
  waiting : Phase
  received : Phase
  timed_out : Phase
  removing : Bool → Phase
  returned : Option DubboRsp → Phase
  failed : Phase

pub record Call : Type 0 where
  pub msg_id : ℕ
  pub rsp : Option DubboRsp
  pub phase : Phase

-- Who holds `mapMutex` while it waits at a channel: `RspCallBack` or the loop of `close` over the
-- calls that are still to be told.
pub data Holder : Type 0 where
  free : Holder
  replying : ℕ → Holder
  telling : List ℕ → Holder

pub record DubboClient : Type 0 where
  pub closed : Bool
  pub closing : Bool
  pub holder : Holder
  pub msg_wait_rsp_map : List (ℕ × ℕ)
  pub calls : ℕ → Call
  pub next : ℕ

abbrev pub nobody : ℕ → Call
nobody k = record { msg_id = 0; rsp = none; phase = failed }

abbrev pub new_dubbo_client : DubboClient
new_dubbo_client = record {
  closed = true;
  closing = false;
  holder = free;
  msg_wait_rsp_map = [];
  calls = nobody;
  next = 0;
}

abbrev pub update : ℕ → Call → (ℕ → Call) → ℕ → Call
update k c calls j = if j == k then c else calls j

unfoldable pub find : ℕ → List (ℕ × ℕ) → Option ℕ
find id [] = none
find id ((i, k) ∷ m) = if i == id then some k else find id m

unfoldable pub remove : ℕ → List (ℕ × ℕ) → List (ℕ × ℕ)
remove id [] = []
remove id ((i, k) ∷ m) = if i == id then remove id m else (i, k) ∷ remove id m

abbrev pub waiters : List (ℕ × ℕ) → List ℕ
waiters [] = []
waiters ((i, k) ∷ m) = k ∷ waiters m

abbrev pub set_phase : ℕ → Phase → DubboClient → DubboClient
set_phase k p s = record s { calls = update k (record (s.calls k) { phase = p }) s.calls }

-- The start of `Send`: a closed client is opened, and a failure to open is not looked at.
unfoldable pub enter : ℕ → Bool → DubboClient → DubboClient
enter id dialled s = record s {
  closed = if dialled then false else s.closed;
  calls = update s.next (record { msg_id = id; rsp = none; phase = preparing }) s.calls;
  next = suc s.next;
}

unfoldable pub add_wait_msg : ℕ → DubboClient → DubboClient
unfolding remove
add_wait_msg k s =
    let id = (s.calls k).msg_id in
    record (set_phase k waiting s) { msg_wait_rsp_map = (id, k) ∷ remove id s.msg_wait_rsp_map }

unfoldable pub remove_wait_msg : ℕ → DubboClient → DubboClient
unfolding remove
remove_wait_msg id s = record s { msg_wait_rsp_map = remove id s.msg_wait_rsp_map }

abbrev pub reply_to : DubboRsp → Option ℕ → DubboClient → DubboClient
reply_to r none s = s
reply_to r (some k) s = record s {
  holder = replying k;
  calls = update k (record (s.calls k) { rsp = some r }) s.calls;
}

-- `RspCallBack` up to its send on the channel of the call.
unfoldable pub rsp_call_back : DubboRsp → DubboClient → DubboClient
unfolding find
rsp_call_back r s = reply_to r (find r.id s.msg_wait_rsp_map) s

-- The end of `Send` for a call that received: the response that its result holds by then.
unfoldable pub finish : ℕ → DubboClient → DubboClient
unfolding remove_wait_msg
finish k s = set_phase k (returned (s.calls k).rsp) (remove_wait_msg (s.calls k).msg_id s)

unfoldable pub finish_timeout : ℕ → DubboClient → DubboClient
unfolding remove_wait_msg
finish_timeout k s = set_phase k failed (remove_wait_msg (s.calls k).msg_id s)

pub data Step : DubboClient → DubboClient → Type 0 where
  send : (s : DubboClient) (id : ℕ) (dialled : Bool) → s.holder ≡ free → Step s (enter id dialled s)
  wait :
      (s : DubboClient) (k : ℕ)
      → k < s.next
      → s.holder ≡ free
      → (s.calls k).phase ≡ preparing
      → Step s (add_wait_msg k s)
  reply : (s : DubboClient) (r : DubboRsp) → s.holder ≡ free → Step s (rsp_call_back r s)
  hand_over :
      (s : DubboClient) (k : ℕ)
      → s.holder ≡ replying k
      → (s.calls k).phase ≡ waiting
      → Step s (record (set_phase k received s) { holder = free })
  time_out :
      (s : DubboClient) (k : ℕ) → (s.calls k).phase ≡ waiting → Step s (set_phase k timed_out s)
  -- `Send` finds the client closed: it returns and leaves its entry in the map.
  give_up :
      (s : DubboClient) (k : ℕ)
      → ((s.calls k).phase ≡ received) ⊎ ((s.calls k).phase ≡ timed_out)
      → s.closed ≡ true
      → Step s (set_phase k failed s)
  -- `Send` finds the client open, and then takes the entry out of the map.
  go_on :
      (s : DubboClient) (k : ℕ)
      → (s.calls k).phase ≡ received
      → s.closed ≡ false
      → Step s (set_phase k (removing false) s)
  go_on_timeout :
      (s : DubboClient) (k : ℕ)
      → (s.calls k).phase ≡ timed_out
      → s.closed ≡ false
      → Step s (set_phase k (removing true) s)
  answer :
      (s : DubboClient) (k : ℕ)
      → (s.calls k).phase ≡ removing false
      → s.holder ≡ free
      → Step s (finish k s)
  no_answer :
      (s : DubboClient) (k : ℕ)
      → (s.calls k).phase ≡ removing true
      → s.holder ≡ free
      → Step s (finish_timeout k s)
  begin_close :
      (s : DubboClient)
      → s.closed ≡ false
      → s.closing ≡ false
      → Step s (record s { closed = true; closing = true })
  lock_close :
      (s : DubboClient)
      → s.closing ≡ true
      → s.holder ≡ free
      → Step s (record s { holder = telling (waiters s.msg_wait_rsp_map) })
  tell :
      (s : DubboClient) (k : ℕ) (ks : List ℕ)
      → s.holder ≡ telling (k ∷ ks)
      → (s.calls k).phase ≡ waiting
      → Step s (record (set_phase k received s) { holder = telling ks })
  end_close :
      (s : DubboClient)
      → s.holder ≡ telling []
      → Step s (record s { holder = free; closing = false; msg_wait_rsp_map = [] })
  reopen : (s : DubboClient) → s.closing ≡ false → Step s (record s { closed = false })

pub data Run : DubboClient → DubboClient → Type 0 where
  here : (s : DubboClient) → Run s s
  later : (s t u : DubboClient) → Run s t → Step t u → Run s u
