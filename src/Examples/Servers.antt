-- ===== src/Examples/Servers.antt =====
-- Sessions of the DoIP server, and runs of `main`.
use can_from_scratch.Prelude.{ℕ, ◌≡◌, true, List, [], ◌∷◌, arith}
use can_from_scratch.Prelude.Int.{pos, negsuc, ◌≤ℤ◌}
use can_from_scratch.Calls.{in_order}
use can_from_scratch.Doip.{
  new_server, Received, print_doip_packet, handle_client, Round, Setup, run,
}
use can_from_scratch.Doip.Sockets.{lifetime, lifetime-in_order}
use can_from_scratch.Doip.Acks.{Served, handle_client-Served}
use can_from_scratch.Doip.Text.{read_packet, read_packet-print_doip_packet}
use can_from_scratch.Main.{CanSocket, main}
use can_from_scratch.Main.Released.{all_ok, main-in_order}
use can_from_scratch.Prelude.{none}

-- A vehicle announcement request, and a packet that is too short.
abbrev request : List ℕ
request = 0x02 ∷ 0xFD ∷ 0x00 ∷ 0x04 ∷ 0x00 ∷ 0x00 ∷ 0x00 ∷ 0x00 ∷ []

abbrev session : List Received
session =
    Received.bytes_read request
    ∷ Received.bytes_read (0x02 ∷ 0xAB ∷ [])
    ∷ Received.bytes_read []
    ∷ []

abbrev setup : Setup
setup = record {
  socket_result = pos 5;
  setsockopt_result = pos 0;
  bind_result = pos 0;
  listen_result = pos 0;
}

abbrev rounds : List Round
rounds =
    record { poll_result = pos 0; readable = true; accept_result = pos 6; received = [] }
    ∷ record { poll_result = pos 1; readable = true; accept_result = pos 6; received = session }
    ∷ record { poll_result = pos 1; readable = true; accept_result = negsuc 0; received = [] }
    ∷ []

lifetime-in_order_example :
    (in_order [] [] (lifetime setup rounds) ≡ true)
    × ((run new_server setup rounds).0.listen_fd ≤ℤ negsuc 0)
lifetime-in_order_example = lifetime-in_order setup rounds (ground arith)

handle_client-Served_example : Served (pos 6) session (handle_client (pos 6) session)
handle_client-Served_example = handle_client-Served (pos 6) session (ground arith)

read_packet-print_doip_packet_example : read_packet none (print_doip_packet request) ≡ request
read_packet-print_doip_packet_example = read_packet-print_doip_packet request (ground arith)

abbrev can_socket : CanSocket
can_socket = record { socket_result = pos 3; ioctl_result = pos 0; bind_result = pos 0 }

main-in_order_example :
    (in_order [] [] (main can_socket 4).0 ≡ true) × ((main can_socket 4).1 ≡ all_ok can_socket)
main-in_order_example = main-in_order can_socket 4
