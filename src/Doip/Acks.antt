-- ===== src/Doip/Acks.antt =====
-- What a client of the DoIP server is answered.
use can_from_scratch.Prelude.{
  ℕ, suc, ap, sym, ◌∙◌, ◌-◌, ◌/◌, ◌%◌, ◌^◌, ◌==◌, ◌≡◌, refl, Bool, false, none, List, [], ◌∷◌,
  length, map, replicate, All, arith, Bool-cases, inl, inr, if◌then◌else◌,
}
use can_from_scratch.Frame.{IsByte}
use can_from_scratch.Prelude.Int.{ℤ}
use can_from_scratch.Calls.{Call}
use can_from_scratch.Doip.{Received, is_probe, handle_client}
use can_from_scratch.Doip.Text.{read_packet, read_packet-print_doip_packet}

-- The packets of a session: those before an error and before the end of the connection.
abbrev pub packets : List Received → List (List ℕ)
packets [] = []
packets (Received.recv_failed ∷ rest) = []
packets (Received.bytes_read [] ∷ rest) = []
packets (Received.bytes_read (b ∷ bytes) ∷ rest) = (b ∷ bytes) ∷ packets rest

-- A DoIP header in network byte order: the version and its inverse, the type of the payload in two
-- bytes, and its length in four.
abbrev pub doip_header : (version type len : ℕ) → List ℕ
doip_header version type len =
    version
    ∷ (255 - version)
    ∷ (type / 2 ^ 8 % 2 ^ 8)
    ∷ (type % 2 ^ 8)
    ∷ (len / 2 ^ 24 % 2 ^ 8)
    ∷ (len / 2 ^ 16 % 2 ^ 8)
    ∷ (len / 2 ^ 8 % 2 ^ 8)
    ∷ (len % 2 ^ 8)
    ∷ []

-- A 2 and at least seven bytes after it.
abbrev pub is_request : List ℕ → Bool
is_request (v ∷ _ ∷ _ ∷ _ ∷ _ ∷ _ ∷ _ ∷ _ ∷ _) = v == 2
is_request _ = false

abbrev pub requests : List (List ℕ) → ℕ
requests [] = 0
requests (x ∷ rest) = let later = requests rest in if is_request x then suc later else later

-- What was sent, and what was printed.
abbrev pub answers : List Call → List (ℤ × List ℕ)
answers [] = []
answers (Call.sent fd bytes ∷ rest) = (fd, bytes) ∷ answers rest
answers (_ ∷ rest) = answers rest

abbrev pub lines : List Call → List (ℕ × List ℕ)
lines [] = []
lines (Call.printed n text ∷ rest) = (n, text) ∷ lines rest
lines (_ ∷ rest) = lines rest

is_probe_lem : (bytes : List ℕ) → is_probe bytes ≡ is_request bytes
is_probe_lem [] = refl
is_probe_lem (a ∷ []) = refl
is_probe_lem (a ∷ b ∷ []) = refl
is_probe_lem (a ∷ b ∷ c ∷ []) = refl
is_probe_lem (a ∷ b ∷ c ∷ d ∷ []) = refl
is_probe_lem (a ∷ b ∷ c ∷ d ∷ e ∷ []) = refl
is_probe_lem (a ∷ b ∷ c ∷ d ∷ e ∷ f ∷ []) = refl
is_probe_lem (a ∷ b ∷ c ∷ d ∷ e ∷ f ∷ g ∷ []) = refl
is_probe_lem (a ∷ b ∷ c ∷ d ∷ e ∷ f ∷ g ∷ h ∷ rest) = ground arith

-- What a session of bytes prints and answers.
pub record Served (fd : ℤ) (received : List Received) (calls : List Call) : Type 0 where
  pub shown :
      map {B = ℕ × List ℕ} (λ l. (l.0, read_packet none l.1)) (lines calls)
      ≡ map {B = ℕ × List ℕ} (λ x. (length x, x)) (packets received)
  pub answered : answers calls ≡ replicate (requests (packets received)) (fd, doip_header 2 1 0)

-- Of a session, `handleClient` prints every packet of bytes before an error or the end of the
-- connection, in order: the length that is printed is the packet's, and the hexadecimal line reads
-- back as the packet. And it sends, on the client's connection and nowhere else, as many answers as
-- there are packets among them of a 2 and at least seven more bytes, each answer the DoIP header of
-- version 2 with its inverse, payload type 1 and length 0, in network byte order.
pub handle_client-Served :
    (fd : ℤ) (received : List Received)
    → All (All IsByte) (packets received)
    → Served fd received (handle_client fd received)
unfolding handle_client
handle_client-Served fd [] h = record { shown = refl; answered = refl }
handle_client-Served fd (Received.recv_failed ∷ rest) h = record { shown = refl; answered = refl }
handle_client-Served fd (Received.bytes_read [] ∷ rest) h = record { shown = refl; answered = refl }
handle_client-Served fd (Received.bytes_read (b ∷ bytes) ∷ rest) h =
    let later = handle_client-Served fd rest h.1 in
    let back = read_packet-print_doip_packet (b ∷ bytes) h.0 in
    let same = is_probe_lem (b ∷ bytes) in
    let nonempty : (length (b ∷ bytes) == 0) ≡ false = ground arith in
    elim (Bool-cases (is_probe (b ∷ bytes))) [
      | inl probe ↦ record {
        shown = ground (arith, probe, back, later.shown);
        answered =
            rw (nonempty, probe, sym same ∙ probe)
              (ap (λ r. (fd, doip_header 2 1 0) ∷ r) later.answered);
      }
      | inr other ↦ record {
        shown = ground (arith, other, back, later.shown);
        answered = rw (nonempty, other, sym same ∙ other) later.answered;
      }
    ]
