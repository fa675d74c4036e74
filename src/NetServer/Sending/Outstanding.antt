-- ===== src/NetServer/Sending/Outstanding.antt =====
-- The packets of a session from its queue to the call of `WSASend` (LoginServer_Chat/CNetServer.cpp).
use login_server_chat.Prelude.{
  ℕ, zero, suc, ◌≤◌, ◌==◌, ltb, if◌then◌else◌, List, [], ◌∷◌, ◌++◌, take, drop, length, some, ◌≡◌,
  ◌≢◌, false, refl, ap, ◌∙◌, sym, arith, Bool-cases, inl, inr, take-append, take-length, ==_iff,
  length-take,
}
use login_server_chat.NetServer.Session.{
  Session, Server, Event, update, increment, decrement, set_session, emit, free_packets,
  packets_sent, invalid_socket, Posted, completed, pending, failed,
}
use login_server_chat.NetServer.Session.Counts.{update_same}
use login_server_chat.NetServer.Sending.{
  max_buf, take_send_flag, fill_send_packets, sent, post_packets, send_post, send_completed,
}

-- The packets handed to `WSASend` and not completed, and those in the queue behind them.
abbrev pub in_flight : Session → List ℕ
in_flight session = take session.send_cnt session.send_packets

abbrev pub outstanding : Session → List ℕ
outstanding session = in_flight session ++ session.send_q

take-drop : (n : ℕ) (xs : List ℕ) → take n xs ++ drop n xs ≡ xs
take-drop zero xs = refl
take-drop (suc n) [] = refl
take-drop (suc n) (x ∷ xs) = ap (λ l. x ∷ l) (take-drop n xs)

take-drop-append : (n : ℕ) (xs ys : List ℕ) → n ≤ length xs → take n (take n xs ++ ys) ≡ take n xs
take-drop-append n xs ys le = take-append (take n xs) ys n (omega (arith, length-take n xs))

fill-in_flight :
    (session : Session) (n : ℕ)
    → n ≤ length session.send_q
    → in_flight (fill_send_packets session n) ≡ take n session.send_q
unfolding fill_send_packets
fill-in_flight session n le = take-drop-append n session.send_q (drop n session.send_packets) le

fill-outstanding :
    (session : Session) (n : ℕ)
    → n ≤ length session.send_q
    → outstanding (fill_send_packets session n) ≡ session.send_q
unfolding fill_send_packets
fill-outstanding session n le =
    rw (take-drop-append n session.send_q (drop n session.send_packets) le)
      (take-drop n session.send_q)

sent-keeps :
    (s : Server) (i : ℕ) (posted : Posted)
    → (outstanding ((sent s i posted).sessions i) ≡ outstanding (s.sessions i))
      × (in_flight ((sent s i posted).sessions i) ≡ in_flight (s.sessions i))
unfolding sent set_session emit
sent-keeps s i completed = (refl, refl)
sent-keeps s i pending = elim (Bool-cases ((s.sessions i).socket == invalid_socket)) [
  | inl gone ↦ rw gone (refl, refl)
  | inr there ↦ rw there (refl, refl)
]
sent-keeps s i failed =
    rw
      (update_same s.sessions i
        (record (s.sessions i) { io_count = decrement (s.sessions i).io_count }))
      (refl, refl)

no_entries : (xs : List ℕ) → length xs ≡ 0 → xs ≡ []
no_entries [] e = refl
no_entries (x ∷ xs) e = absurd (omega arith)

abbrev use_size : List ℕ → ℕ
use_size queue = if ltb max_buf (length queue) then max_buf else length queue

take-use_size : (queue : List ℕ) → take (use_size queue) queue ≡ take max_buf queue
take-use_size queue = elim (Bool-cases (ltb max_buf (length queue))) [
  | inl more ↦ rw more refl
  | inr less ↦ rw less (
      take-length (length queue) queue (omega arith)
      ∙ sym (take-length max_buf queue (ground (arith, less))))
]

post_packets-some :
    (s : Server) (i : ℕ) (posted : Posted) (session : Session)
    → (in_flight ((post_packets s i posted (some session)).sessions i)
        ≡ take max_buf session.send_q)
      × (outstanding ((post_packets s i posted (some session)).sessions i) ≡ session.send_q)
unfolding post_packets emit set_session
post_packets-some s i posted session =
    let n = use_size session.send_q in
    let k =
      sent-keeps
        (emit (set_session s i (fill_send_packets session n))
          (packets_sent (take n session.send_q)))
        i posted in
    let there = update_same s.sessions i (fill_send_packets session n) in
    (
      k.1
          ∙ ap in_flight there
          ∙ fill-in_flight session n (ground arith)
          ∙ take-use_size session.send_q,
      k.0 ∙ ap outstanding there ∙ fill-outstanding session n (ground arith),
    )

-- When no packet is in flight, `SendPost` takes up to 200 packets from the front of the queue.
send_post-idle :
    (s : Server) (i : ℕ) (posted : Posted)
    → (s.sessions i).send_flag ≡ 0
    → (s.sessions i).send_cnt ≡ 0
    → (in_flight ((send_post s i posted).sessions i) ≡ take max_buf (s.sessions i).send_q)
      × (outstanding ((send_post s i posted).sessions i) ≡ (s.sessions i).send_q)
unfolding send_post post_packets take_send_flag
send_post-idle s i posted flag cnt = elim (Bool-cases (length (s.sessions i).send_q == 0)) [
  | inl none_ ↦
      rw none_ (rw (cnt, no_entries (s.sessions i).send_q ((==_iff _ _).0 none_)) (refl, refl))
  | inr some_ ↦
      rw (some_, flag) (post_packets-some s i posted (record (s.sessions i) { send_flag = 1 }))
]

-- The events of a call that hands the packets at the front of this queue to `WSASend`, if there are any.
abbrev pub handed_over : List ℕ → List Event → List Event
handed_over queue events =
    if length queue == 0 then events else packets_sent (take max_buf queue) ∷ events

-- The count of users after `WSASend` with this answer, when there are packets in this queue.
abbrev pub answered : Posted → ℕ → ℕ
answered completed n = n
answered pending n = n
answered failed n = decrement n

abbrev pub counted : List ℕ → Posted → ℕ → ℕ
counted queue posted n = if length queue == 0 then n else answered posted (increment n)

sent-events :
    (s : Server) (i : ℕ) (posted : Posted)
    → (s.sessions i).socket ≢ invalid_socket
    → (sent s i posted).events ≡ s.events
unfolding sent set_session
sent-events s i completed valid = refl
sent-events s i pending valid =
    let there : ((s.sessions i).socket == invalid_socket) ≡ false = ground (arith, valid) in
    rw there refl
sent-events s i failed valid = refl

post_packets-events :
    (s : Server) (i : ℕ) (posted : Posted) (session : Session)
    → session.socket ≢ invalid_socket
    → (post_packets s i posted (some session)).events
      ≡ packets_sent (take max_buf session.send_q) ∷ s.events
unfolding post_packets emit set_session fill_send_packets
post_packets-events s i posted session valid =
    let n = use_size session.send_q in
    let there = update_same s.sessions i (fill_send_packets session n) in
    sent-events
      (emit (set_session s i (fill_send_packets session n)) (packets_sent (take n session.send_q)))
      i posted (λ e. valid (sym (ap (λ x. x.socket) there) ∙ e))
    ∙ ap (λ ps. packets_sent ps ∷ s.events) (take-use_size session.send_q)

sent-io_count :
    (s : Server) (i : ℕ) (posted : Posted)
    → ((sent s i posted).sessions i).io_count ≡ answered posted (s.sessions i).io_count
unfolding sent set_session emit
sent-io_count s i completed = refl
sent-io_count s i pending = elim (Bool-cases ((s.sessions i).socket == invalid_socket)) [
  | inl gone ↦ rw gone refl
  | inr there ↦ rw there refl
]
sent-io_count s i failed =
    ap (λ x. x.io_count)
      (update_same s.sessions i
        (record (s.sessions i) { io_count = decrement (s.sessions i).io_count }))

post_packets-io_count :
    (s : Server) (i : ℕ) (posted : Posted) (session : Session)
    → ((post_packets s i posted (some session)).sessions i).io_count
      ≡ answered posted (increment session.io_count)
unfolding post_packets emit set_session fill_send_packets
post_packets-io_count s i posted session =
    let n = use_size session.send_q in
    sent-io_count
      (emit (set_session s i (fill_send_packets session n)) (packets_sent (take n session.send_q)))
      i posted
    ∙ ap (λ x. answered posted x.io_count) (update_same s.sessions i (fill_send_packets session n))

-- `SendPost` when no packet is in flight, and the socket is there.
send_post-handed :
    (s : Server) (i : ℕ) (posted : Posted)
    → (s.sessions i).send_flag ≡ 0
    → (s.sessions i).socket ≢ invalid_socket
    → ((send_post s i posted).events ≡ handed_over (s.sessions i).send_q s.events)
      × (((send_post s i posted).sessions i).io_count
          ≡ counted (s.sessions i).send_q posted (s.sessions i).io_count)
unfolding send_post post_packets take_send_flag
send_post-handed s i posted flag valid =
    let session : Session = record (s.sessions i) { send_flag = 1 } in
    elim (Bool-cases (length (s.sessions i).send_q == 0)) [
      | inl none_ ↦ rw none_ (refl, refl)
      | inr some_ ↦
          rw (some_, flag)
            (post_packets-events s i posted session valid, post_packets-io_count s i posted session)
    ]

-- After a completed send of a session whose socket is not `INVALID_SOCKET`, whatever `WSASend` answers to
-- the next one. The packets of the completed send are given back. Up to 200 packets from the front of
-- the queue are handed to `WSASend`, in order, if there are any, and these are counted in the array; with
-- the rest of the queue behind them they are the queue before. The session has one user more for them,
-- unless `WSASend` fails, when they stay counted in the array.
pub send_completed-handed :
    (s : Server) (i : ℕ) (posted : Posted)
    → (s.sessions i).socket ≢ invalid_socket
    → let session = s.sessions i in
      let s' = send_completed s i posted in
      (s'.events
        ≡ handed_over session.send_q
            (free_packets (take session.send_cnt session.send_packets) s.events))
      × (in_flight (s'.sessions i) ≡ take max_buf session.send_q)
      × (in_flight (s'.sessions i) ++ (s'.sessions i).send_q ≡ session.send_q)
      × ((s'.sessions i).io_count ≡ counted session.send_q posted session.io_count)
unfolding send_completed
send_completed-handed s i posted valid =
    let session : Session = record (s.sessions i) { send_cnt = 0; send_flag = 0 } in
    let there = update_same s.sessions i session in
    let s1 : Server = record s {
      sessions = update s.sessions i session;
      events = free_packets (in_flight (s.sessions i)) s.events;
    } in
    let flag = ap (λ x. x.send_flag) there in
    let queue = ap (λ x. x.send_q) there in
    let h = send_post-idle s1 i posted flag (ap (λ x. x.send_cnt) there) in
    let k = send_post-handed s1 i posted flag (λ e. valid (sym (ap (λ x. x.socket) there) ∙ e)) in
    (
      k.0 ∙ ap (λ q. handed_over q s1.events) queue,
      h.0 ∙ ap (take max_buf) queue,
      h.1 ∙ queue,
      k.1 ∙ ap (λ x. counted x.send_q posted x.io_count) there,
    )
