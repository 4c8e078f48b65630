-- ===== src/Slots/Bytes.antt =====
-- src/client_tun.rs: no byte of a connection is lost or put out of order between the relay and
-- smoltcp, in either direction.
use mathlib.Core.List.{append-nil, append_assoc}
use mini_vpn.FakeIp.{FakeIpPool}
use mini_vpn.Registry.{handshake_pending, SocketCtx, buffer_uplink, max_uplink_buffer}
use mini_vpn.Slots.{
  SendAnswer, cannot_send, accepts, send_fails, flush_downlink, Handled, quiet, Opening,
  takes_handshake, is_pending, open_spawned, handle_local_payload, handle_handshake_done,
  handle_remote_payload, note_remote_payload, add64,
}
use mini_vpn.Slots.Moves.{flush_downlink_same}
use mini_vpn.Target.{TargetAddr}
use mini_vpn.Base.{
  ℕ, zero, suc, ◌+◌, ◌≤◌, ◌≡◌, refl, sym, ap, ◌∙◌, ◌≢◌, inl, inr, Bool, true, false, not, Option,
  none, some, List, [], ◌∷◌, ◌++◌, arith, ltb, ◌==◌, ==_iff, Bool-cases, if_cases, if_intro,
  is_some, length, take, drop, length-append, take-append-drop, All, concat,
}
use mini_vpn.Base.Keys.{nat_eq, bytes_eq, pair_eq}

-- What smoltcp takes of the bytes that wait.
abbrev pub taken : SendAnswer → List ℕ → List ℕ
taken cannot_send pending = []
taken (accepts n) pending = take n pending
taken send_fails pending = []

-- The socket answers, and its connection is not broken.
abbrev pub IsSound : SendAnswer → Type 0
IsSound cannot_send = Unit
IsSound (accepts n) = Unit
IsSound send_fails = ⊥

drop_nil : (n : ℕ) → ◌≡◌ {A = List ℕ} (drop n []) []
drop_nil zero = refl
drop_nil (suc n) = refl

take_nil : (n : ℕ) → ◌≡◌ {A = List ℕ} (take n []) []
take_nil zero = refl
take_nil (suc n) = refl

no_bytes : (bs : List ℕ) → (length bs == 0) ≡ true → bs ≡ []
no_bytes [] t = refl
no_bytes (b ∷ bs) t = absurd (ground arith)

flush_downlink_keeps :
    (answer : SendAnswer) (ctx : SocketCtx)
    → IsSound answer
    → taken answer ctx.downlink_pending ++ (flush_downlink answer ctx).downlink_pending
      ≡ ctx.downlink_pending
unfolding flush_downlink
flush_downlink_keeps cannot_send ctx s =
    if_intro (λ (c : SocketCtx). [] ++ c.downlink_pending ≡ ctx.downlink_pending)
      (length ctx.downlink_pending == 0) refl refl
flush_downlink_keeps (accepts n) ctx s =
    if_cases
      (λ (c : SocketCtx). take n ctx.downlink_pending ++ c.downlink_pending ≡ ctx.downlink_pending)
      (length ctx.downlink_pending == 0)
      (λ t. rw (no_bytes ctx.downlink_pending t, take_nil n) refl)
      (λ f. take-append-drop n ctx.downlink_pending)
flush_downlink_keeps send_fails ctx s = absurd s

-- What a relay's slot meets: the answer of the socket to a turn of the loop, or a payload of the
-- remote side with the answer to it.
pub data Down : Type 0 where
  turn : SendAnswer → Down
  arrives : SendAnswer → Bool → List ℕ → Down

abbrev pub IsSoundDown : Down → Type 0
IsSoundDown (turn answer) = IsSound answer
IsSoundDown (arrives answer flushed payload) = IsSound answer × (payload ≢ [])

-- The slot after each, with the bytes that smoltcp took.
abbrev pub down_step : Down → SocketCtx → FakeIpPool → ℕ → List ℕ × SocketCtx
down_step (turn answer) ctx pool now =
    (taken answer ctx.downlink_pending, flush_downlink answer ctx)
down_step (arrives answer flushed payload) ctx pool now = (
  taken answer (ctx.downlink_pending ++ payload),
  (handle_remote_payload answer flushed payload ctx pool now).ctx,
)

abbrev pub down_run : List Down → SocketCtx → FakeIpPool → ℕ → List ℕ × SocketCtx
down_run [] ctx pool now = ([], ctx)
down_run (d ∷ ds) ctx pool now =
    let (given, next) = down_step d ctx pool now in
    let (more, last) = down_run ds next pool now in (given ++ more, last)

abbrev pub arrived : List Down → List ℕ
arrived [] = []
arrived (turn answer ∷ ds) = arrived ds
arrived (arrives answer flushed payload ∷ ds) = payload ++ arrived ds

-- The slot of an open relay after a payload.
remote_open :
    (answer : SendAnswer) (flushed : Bool) (payload : List ℕ) (ctx : SocketCtx) (pool : FakeIpPool)
    (now : ℕ)
    → IsSound answer
    → payload ≢ []
    → is_some ctx.uplink_tx ≡ true
    → let next = (handle_remote_payload answer flushed payload ctx pool now).ctx in
      (taken answer (ctx.downlink_pending ++ payload) ++ next.downlink_pending
        ≡ ctx.downlink_pending ++ payload)
      × (next.uplink_tx ≡ ctx.uplink_tx)
unfolding handle_remote_payload
remote_open answer flushed payload ctx pool now s full open_ =
    let pending = ctx.downlink_pending ++ payload in
    let filled = record ctx {
      downlink_pending = pending;
      downlink_diag = note_remote_payload ctx.downlink_diag (length payload) (length pending);
    } in
    let (fake, up, state, buf, epoch, down) = flush_downlink_same answer filled in
    let P = λ (h : Handled).
      (taken answer pending ++ h.ctx.downlink_pending ≡ pending)
      × (h.ctx.uplink_tx ≡ ctx.uplink_tx) in
    if_cases P (length payload == 0) (λ t. absurd (full (no_bytes payload t)))
      (λ f.
        if_cases P (not (is_some ctx.uplink_tx)) (λ t. absurd (ground (arith, t, open_)))
          (λ g. (flush_downlink_keeps answer filled s, up)))

-- While a relay is open and smoltcp does not break the connection, the bytes that smoltcp took and
-- those that still wait are, in order, those that waited at first and all that arrived since.
pub down_run-arrived :
    (ds : List Down) (ctx : SocketCtx) (pool : FakeIpPool) (now : ℕ)
    → All IsSoundDown ds
    → is_some ctx.uplink_tx ≡ true
    → let (given, last) = down_run ds ctx pool now in
      given ++ last.downlink_pending ≡ ctx.downlink_pending ++ arrived ds
down_run-arrived [] ctx pool now s open_ = sym (append-nil ctx.downlink_pending)
down_run-arrived (turn answer ∷ ds) ctx pool now (s, rest) open_ =
    let next = flush_downlink answer ctx in
    let (fake, up, state, buf, epoch, down) = flush_downlink_same answer ctx in
    let later = down_run-arrived ds next pool now rest (rw up open_) in
    append_assoc (taken answer ctx.downlink_pending) (down_run ds next pool now).0
      (down_run ds next pool now).1.downlink_pending
    ∙ ap (λ (bs : List ℕ). taken answer ctx.downlink_pending ++ bs) later
    ∙ sym (append_assoc (taken answer ctx.downlink_pending) next.downlink_pending (arrived ds))
    ∙ ap (λ (bs : List ℕ). bs ++ arrived ds) (flush_downlink_keeps answer ctx s)
down_run-arrived (arrives answer flushed payload ∷ ds) ctx pool now ((s, full), rest) open_ =
    let next = (handle_remote_payload answer flushed payload ctx pool now).ctx in
    let (kept, up) = remote_open answer flushed payload ctx pool now s full open_ in
    let later = down_run-arrived ds next pool now rest (rw up open_) in
    let given = taken answer (ctx.downlink_pending ++ payload) in
    append_assoc given (down_run ds next pool now).0 (down_run ds next pool now).1.downlink_pending
    ∙ ap (λ (bs : List ℕ). given ++ bs) later
    ∙ sym (append_assoc given next.downlink_pending (arrived ds))
    ∙ ap (λ (bs : List ℕ). bs ++ arrived ds) kept
    ∙ append_assoc ctx.downlink_pending payload (arrived ds)

-- The payloads of the application that come while the handshake is under way, first one first.
abbrev pub local_all :
    Opening
    → ℕ
    → TargetAddr
    → Option ℕ
    → List (List ℕ)
    → SocketCtx
    → FakeIpPool
    → ℕ
    → SocketCtx × FakeIpPool
local_all opening handle target fake [] ctx pool now = (ctx, pool)
local_all opening handle target fake (p ∷ ps) ctx pool now =
    let next = handle_local_payload opening handle p (some target) fake ctx pool now in
    local_all opening handle target fake ps next.ctx next.pool now

buffer_uplink_room :
    (ctx : SocketCtx) (payload : List ℕ)
    → length ctx.uplink_buffer + length payload ≤ max_uplink_buffer
    → (buffer_uplink ctx payload).1 ≡ record ctx { uplink_buffer = ctx.uplink_buffer ++ payload }
unfolding buffer_uplink
buffer_uplink_room ctx payload h =
    let fits : ltb max_uplink_buffer (length ctx.uplink_buffer + length payload) ≡ false =
      ground arith in
    rw fits refl

-- The same slot with more bytes put by.
abbrev put_by : SocketCtx → List ℕ → SocketCtx
put_by ctx bs = record ctx { uplink_buffer = ctx.uplink_buffer ++ bs }

local_all_waiting :
    (opening : Opening) (k : ℕ) (target : TargetAddr) (fake : Option ℕ) (ps : List (List ℕ))
    (ctx : SocketCtx) (pool : FakeIpPool) (now : ℕ)
    → is_pending ctx.state ≡ true
    → length ctx.uplink_buffer + length (concat ps) ≤ max_uplink_buffer
    → local_all opening k target fake ps ctx pool now ≡ (put_by ctx (concat ps), pool)
local_all_waiting opening k target fake [] ctx pool now pending h =
    rw (append-nil ctx.uplink_buffer) refl
local_all_waiting opening k target fake (p ∷ ps) ctx pool now pending h =
    let sizes = length-append p (concat ps) in
    let more = length-append ctx.uplink_buffer p in
    let first : handle_local_payload opening k p (some target) fake ctx pool now
        ≡ quiet (put_by ctx p, pool) =
      waiting (buffer_uplink_room ctx p (omega arith)) in
    ap (λ (h : Handled). local_all opening k target fake ps h.ctx h.pool now) first
    ∙ local_all_waiting opening k target fake ps (put_by ctx p) pool now pending (omega arith)
    ∙ ap (λ (bs : List ℕ). (record ctx { uplink_buffer = bs }, pool))
        (append_assoc ctx.uplink_buffer p (concat ps))
  where
    waiting :
        (buffer_uplink ctx p).1 ≡ put_by ctx p
        → handle_local_payload opening k p (some target) fake ctx pool now
          ≡ quiet (put_by ctx p, pool)
    waiting e = unfold handle_local_payload in rw (pending, e) refl

-- The slot that waits for its handshake, with the first payload put by.
opened_waiting :
    (k : ℕ) (target : TargetAddr) (fake : Option ℕ) (p : List ℕ) (ctx : SocketCtx)
    (pool : FakeIpPool) (now : ℕ)
    → is_pending ctx.state ≡ false
    → ctx.uplink_buffer ≡ []
    → length p ≤ max_uplink_buffer
    → let next = (handle_local_payload takes_handshake k p (some target) fake ctx pool now).ctx in
      (is_pending next.state ≡ true) × (next.uplink_buffer ≡ p)
unfolding handle_local_payload open_spawned
opened_waiting k target none p ctx pool now f e h =
    let c = record ctx { state = handshake_pending; conn_epoch = add64 ctx.conn_epoch 1 } in
    let kept = buffer_uplink_room c p (rw e (omega (arith, h))) in rw f (rw kept (refl, rw e refl))
opened_waiting k target (some ip) p ctx pool now f e h =
    let c = record ctx {
      state = handshake_pending;
      conn_epoch = add64 ctx.conn_epoch 1;
      fake_ip = some ip;
    } in
    let kept = buffer_uplink_room c p (rw e (omega (arith, h))) in rw f (rw kept (refl, rw e refl))

done_flushes :
    (k epoch : ℕ) (ctx : SocketCtx) (pool : FakeIpPool) (now : ℕ)
    → ctx.conn_epoch ≡ epoch
    → is_pending ctx.state ≡ true
    → ctx.uplink_buffer ≢ []
    → (handle_handshake_done true true k epoch ctx pool now).ctx.uplink_tx
      ≡ some (ctx.uplink_buffer ∷ [])
unfolding handle_handshake_done
done_flushes k epoch ctx pool now e pending full =
    let same : (ctx.conn_epoch == epoch) ≡ true = (==_iff ctx.conn_epoch epoch).1 e in
    let some_bytes : (length ctx.uplink_buffer == 0) ≡ false =
      elim (Bool-cases (length ctx.uplink_buffer == 0)) [
        | inl t ↦ absurd (full (no_bytes ctx.uplink_buffer t))
        | inr f ↦ f
      ] in
    rw (same, pending, some_bytes) refl

-- What the application sends while the handshake is under way, up to 256 KB, is the first thing
-- sent to the relay once the handshake is done, whole and in order.
pub handshake_flush :
    (opening : Opening) (k : ℕ) (target : TargetAddr) (fake : Option ℕ) (p : List ℕ)
    (ps : List (List ℕ)) (ctx : SocketCtx) (pool : FakeIpPool) (now : ℕ)
    → is_pending ctx.state ≡ false
    → ctx.uplink_buffer ≡ []
    → p ≢ []
    → length (concat (p ∷ ps)) ≤ max_uplink_buffer
    → let opened = handle_local_payload takes_handshake k p (some target) fake ctx pool now in
      let (waiting, later) = local_all opening k target fake ps opened.ctx opened.pool now in
      (handle_handshake_done true true k opened.ctx.conn_epoch waiting later now).ctx.uplink_tx
      ≡ some (concat (p ∷ ps) ∷ [])
handshake_flush opening k target fake p ps ctx pool now f e full h =
    let sizes = length-append p (concat ps) in
    let opened = handle_local_payload takes_handshake k p (some target) fake ctx pool now in
    let (pending, held) = opened_waiting k target fake p ctx pool now f e (omega arith) in
    let all =
      local_all_waiting opening k target fake ps opened.ctx opened.pool now pending
        (rw held (omega arith)) in
    rw all (
      done_flushes k opened.ctx.conn_epoch (put_by opened.ctx (concat ps)) opened.pool now refl
        pending (λ q. absurd (full (front p (concat ps) (rw held at q))))
      ∙ rw held refl)
  where
    front : (xs ys : List ℕ) → xs ++ ys ≡ [] → xs ≡ []
    front [] ys q = refl
    front (x ∷ xs) ys q = absurd cc
