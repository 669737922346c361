-- ===== src/Doip.antt =====
-- src/doip_server.cpp and include/doip_server.hpp: the class `DoipServer`. The results of the
-- system calls are arguments, and the calls that matter outside are the result. Each pass of a loop
-- takes one element of a list; where the list ends, the running flag reads false.
pub mod Sockets
pub mod Acks
pub mod Text
use can_from_scratch.Prelude.{
  ℕ, ◌+◌, ◌/◌, ◌%◌, Bool, true, false, ◌&&◌, List, [], ◌∷◌, ◌++◌, length, get_or, ltb, leb, ◌==◌,
  if◌then◌else◌,
}
use can_from_scratch.Prelude.Int.{ℤ, pos, negsuc, ltb_ℤ, leb_ℤ, eqb_ℤ}
use can_from_scratch.Calls.{Call}

pub record DoipServer : Type 0 where
  pub listen_fd : ℤ

abbrev pub new_server : DoipServer
new_server = record { listen_fd = negsuc 0 }

-- `closeListenSocket`, which is the destructor too.
unfoldable pub close_listen_socket : DoipServer → DoipServer × List Call
close_listen_socket s =
    if leb_ℤ (pos 0) s.listen_fd
    then (record { listen_fd = negsuc 0 }, Call.closed s.listen_fd ∷ [])
    else (s, [])

-- The code of a hexadecimal digit, as `std::hex` with `std::uppercase` prints it.
abbrev pub hex_digit : ℕ → ℕ
hex_digit d = if ltb d 10 then 48 + d else 55 + d

-- `std::hex` of a byte: no leading zero.
abbrev pub hex : ℕ → List ℕ
hex b = if ltb b 16 then hex_digit b ∷ [] else hex_digit (b / 16) ∷ hex_digit (b % 16) ∷ []

-- The loop of `printDoipPacket`: a space between two bytes.
unfoldable pub print_doip_packet : List ℕ → List ℕ
print_doip_packet [] = []
print_doip_packet (b ∷ []) = hex b
print_doip_packet (b ∷ c ∷ rest) = hex b ++ 32 ∷ print_doip_packet (c ∷ rest)

-- What `recv` gives: an error, or the bytes it read, none if the client has closed the connection.
pub data Received : Type 0 where
  recv_failed : Received
  bytes_read : List ℕ → Received

abbrev pub ack : List ℕ
ack = 0x02 ∷ 0xFD ∷ 0x00 ∷ 0x01 ∷ 0x00 ∷ 0x00 ∷ 0x00 ∷ 0x00 ∷ []

-- `nbytes >= 8 && buffer[0] == 0x02`
abbrev pub is_probe : List ℕ → Bool
is_probe bytes = leb 8 (length bytes) && get_or bytes 0 0 == 0x02

unfoldable pub handle_client : ℤ → List Received → List Call
unfolding print_doip_packet
handle_client client_fd [] = []
handle_client client_fd (Received.recv_failed ∷ rest) = Call.used client_fd ∷ Call.reported ∷ []
handle_client client_fd (Received.bytes_read bytes ∷ rest) =
    let later = handle_client client_fd rest in
    Call.used client_fd
    ∷ (if length bytes == 0
        then []
        else Call.printed (length bytes) (print_doip_packet bytes)
          ∷ (if is_probe bytes then Call.sent client_fd ack ∷ later else later))

-- What one pass of the loop of `run` gets from `poll`, from `accept` and from the client.
pub record Round : Type 0 where
  pub poll_result : ℤ
  pub readable : Bool
  pub accept_result : ℤ
  pub received : List Received

-- The pass for a connection that is waiting.
unfoldable pub serve : ℤ → Round → List Call
unfolding handle_client
serve listen_fd r =
    Call.used listen_fd
    ∷ (if ltb_ℤ r.accept_result (pos 0)
        then Call.reported ∷ []
        else Call.opened r.accept_result
          ∷ (handle_client r.accept_result r.received ++ Call.closed r.accept_result ∷ []))

-- The loop of `run`.
unfoldable pub listen_loop : ℤ → List Round → List Call
unfolding serve
listen_loop listen_fd [] = []
listen_loop listen_fd (r ∷ rest) =
    let later = listen_loop listen_fd rest in
    Call.used listen_fd
    ∷ (if ltb_ℤ r.poll_result (pos 0)
        then Call.reported ∷ []
        else if eqb_ℤ r.poll_result (pos 0)
        then later
        else if r.readable
        then serve listen_fd r ++ later
        else later)

-- The results of the calls before the loop.
pub record Setup : Type 0 where
  pub socket_result : ℤ
  pub setsockopt_result : ℤ
  pub bind_result : ℤ
  pub listen_result : ℤ

-- A failed step of the preparation: the error is reported and the socket closed.
unfoldable pub give_up : DoipServer → DoipServer × List Call
unfolding close_listen_socket
give_up s = let (s', calls) = close_listen_socket s in (s', Call.reported ∷ calls)

-- `run` after the socket is made.
unfoldable pub run_open : DoipServer → Setup → List Round → DoipServer × List Call
unfolding give_up close_listen_socket listen_loop
run_open s setup rounds =
    let (failed, failure) = give_up s in
    let (s', calls) = close_listen_socket s in
    let on_socket = Call.used s.listen_fd in
    if ltb_ℤ setup.setsockopt_result (pos 0)
    then (failed, on_socket ∷ failure)
    else if ltb_ℤ setup.bind_result (pos 0)
    then (failed, on_socket ∷ on_socket ∷ failure)
    else if ltb_ℤ setup.listen_result (pos 0)
    then (failed, on_socket ∷ on_socket ∷ on_socket ∷ failure)
    else (s', on_socket ∷ on_socket ∷ on_socket ∷ (listen_loop s.listen_fd rounds ++ calls))

unfoldable pub run : DoipServer → Setup → List Round → DoipServer × List Call
unfolding run_open
run s setup rounds =
    let s1 : DoipServer = record s { listen_fd = setup.socket_result } in
    if ltb_ℤ setup.socket_result (pos 0)
    then (s1, Call.reported ∷ [])
    else (let (s', calls) = run_open s1 setup rounds in
        (s', Call.opened setup.socket_result ∷ calls))
