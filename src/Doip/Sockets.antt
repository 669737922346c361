-- ===== src/Doip/Sockets.antt =====
-- The descriptors of the DoIP server.
use mathlib.Core.List.{append_assoc}
use can_from_scratch.Prelude.{
  ◌≡◌, ◌≢◌, refl, true, List, [], ◌∷◌, ◌++◌, All, arith, Bool-cases, inl, inr,
}
use can_from_scratch.Prelude.Int.{ℤ, pos, negsuc, ltb_ℤ, ◌≤ℤ◌, eqb_ℤ_self, eqb_ℤ_ne}
use can_from_scratch.Calls.{Call, in_order}
use can_from_scratch.Doip.{
  new_server, Received, Round, Setup, close_listen_socket, handle_client, serve, listen_loop,
  give_up, run_open, run,
}

-- A client's session uses the client's descriptor and nothing else.
handle_client-in_order :
    (fd : ℤ) (fds : List ℤ) (received : List Received) (rest : List Call)
    → in_order (fd ∷ fds) [] (handle_client fd received ++ rest) ≡ in_order (fd ∷ fds) [] rest
unfolding handle_client in_order
handle_client-in_order fd fds [] rest = refl
handle_client-in_order fd fds (Received.recv_failed ∷ more) rest = ground (arith, eqb_ℤ_self fd)
handle_client-in_order fd fds (Received.bytes_read bytes ∷ more) rest =
    ground (arith, eqb_ℤ_self fd, handle_client-in_order fd fds more rest)

-- A connection is closed after its session.
serve-in_order :
    (l : ℤ) (r : Round) (rest : List Call)
    → l ≢ r.accept_result
    → in_order (l ∷ []) [] (serve l r ++ rest) ≡ in_order (l ∷ []) [] rest
unfolding serve in_order
serve-in_order l r rest ne = elim (Bool-cases (ltb_ℤ r.accept_result (pos 0))) [
  | inl failed ↦ rw failed (ground (arith, eqb_ℤ_self l))
  | inr accepted ↦
      rw
        (
          accepted,
          append_assoc (handle_client r.accept_result r.received) (Call.closed r.accept_result ∷ [])
              rest,
        )
        (ground (
          arith,
          eqb_ℤ_ne l r.accept_result ne,
          eqb_ℤ_self l,
          eqb_ℤ_self r.accept_result,
          handle_client-in_order r.accept_result (l ∷ []) r.received
              (Call.closed r.accept_result ∷ rest),
        ))
]

-- `accept` gives a descriptor that is not open, here another one than the listening socket's.
abbrev pub IsFresh : ℤ → Round → Type 0
IsFresh l r = l ≢ r.accept_result

listen_loop-in_order :
    (l : ℤ) (rounds : List Round) (rest : List Call)
    → All (IsFresh l) rounds
    → in_order (l ∷ []) [] (listen_loop l rounds ++ rest) ≡ in_order (l ∷ []) [] rest
unfolding listen_loop in_order
listen_loop-in_order l [] rest h = refl
listen_loop-in_order l (r ∷ more) rest h = ground (
  arith,
  eqb_ℤ_self l,
  append_assoc (serve l r) (listen_loop l more) rest,
  serve-in_order l r (listen_loop l more ++ rest) h.0,
  listen_loop-in_order l more rest h.1,
)

-- The calls of `run` on a new server, and of the destructor afterwards.
abbrev pub lifetime : Setup → List Round → List Call
lifetime setup rounds =
    let (s, calls) = run new_server setup rounds in
    let (s', more) = close_listen_socket s in calls ++ more

-- Let `accept` never give the descriptor of the listening socket, which is open. However the system
-- calls turn out, `run` and the destructor of `DoipServer` close every descriptor that they open,
-- once; they poll, accept, receive and send only on a descriptor that is open, and set options of,
-- bind and listen on the listening socket only while it is; and they leave no listening socket
-- recorded.
pub lifetime-in_order :
    (setup : Setup) (rounds : List Round)
    → All (IsFresh setup.socket_result) rounds
    → (in_order [] [] (lifetime setup rounds) ≡ true)
      × ((run new_server setup rounds).0.listen_fd ≤ℤ negsuc 0)
unfolding run run_open give_up close_listen_socket in_order
lifetime-in_order setup rounds h = ground (
  arith,
  eqb_ℤ_self setup.socket_result,
  append_assoc (listen_loop setup.socket_result rounds) (Call.closed setup.socket_result ∷ []) [],
  listen_loop-in_order setup.socket_result rounds (Call.closed setup.socket_result ∷ []) h,
)
