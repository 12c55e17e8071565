-- ===== src/Hci/Framing.antt =====
-- The format of an HCI command packet: the type 1, the opcode with its low byte first, the size of the
-- parameters, the parameters. What src/HciAdapter.cpp writes of a request is such a packet.
use bluetooth_le.Prelude.{
  ℕ, suc, ◌+◌, ◌*◌, ◌/◌, ◌%◌, ◌<◌, ◌≤◌, ◌≡◌, ◌↔◌, refl, sym, ap, ◌∙◌, subst, Bool, true, false,
  ◌&&◌, [], ◌∷◌, Option, none, some, Text, length, take, if◌then◌else◌, ◌==◌, ==_iff, arith,
  length-take,
}
use bluetooth_le.Hci.System.{System, write}
use bluetooth_le.Hci.Socket.{HciSocket, call, write_bytes}
use bluetooth_le.Hci.Packet.{Request, memory, request}
use bluetooth_le.Hci.Adapter.{send_command}

-- The opcode and the parameters of a packet.
unfoldable pub parse : Text → Option (ℕ × Text)
parse (type ∷ low ∷ high ∷ size ∷ params) =
    if (type == 1) && (size == length params) then some (low + 256 * high, params) else none
parse _ = none

-- `r` comes of writing the bytes once, and says whether the system took all of them.
abbrev pub IsWriteOf : System → Text → HciSocket → Bool × HciSocket → Type 0
IsWriteOf sys bytes s r =
    (r.1 ≡ call (write s.fd bytes) s)
    × ((r.0 ≡ true) ↔ (sys.writes s.calls s.fd bytes ≡ some (length bytes)))

-- The bytes of `r` are the packet of an opcode with parameters.
abbrev pub Sends : System → ℕ × Text → HciSocket → Bool × HciSocket → Type 0
Sends sys (opcode, params) s r =
    (bytes : Text) × IsWriteOf sys bytes s r × (parse bytes ≡ some (opcode, params))

pub writes_once :
    (sys : System) (bytes : Text) (s : HciSocket) → IsWriteOf sys bytes s (write_bytes sys bytes s)
unfolding write_bytes
writes_once sys bytes s = (refl, counted (sys.writes s.calls s.fd bytes))
  where
    counted :
        (o : Option ℕ)
        → (elim o [ none ↦ false | some written ↦ written == length bytes ] ≡ true)
          ↔ (o ≡ some (length bytes))
    counted none = ground arith
    counted (some n) = ground (arith, ==_iff n (length bytes))

take_all : (xs : Text) → take (length xs) xs ≡ xs
take_all [] = refl
take_all (x ∷ xs) = ap (◌∷◌ x) (take_all xs)

-- Of the parameters, as many bytes are written as `plen` says.
written :
    (sys : System) (r : Request) (s : HciSocket)
    → send_command sys r s ≡ write_bytes sys (memory (record r { body = take r.plen r.body })) s
unfolding send_command memory
written sys r s = ap (λ n. write_bytes sys (take n (memory r)) s) (whole r.plen)
  where
    whole : (n : ℕ) → 4 + n ≡ suc (suc (suc (suc n)))
    whole n = omega arith

parse-memory :
    (r : Request)
    → r.type ≡ 1
    → r.opcode < 65536
    → r.plen ≡ length r.body
    → parse (memory r) ≡ some (r.opcode, r.body)
unfolding parse memory
parse-memory r t h e =
    (let low : r.opcode % 256 + 256 * (r.opcode / 256 % 256) ≡ r.opcode = omega (arith, h) in
      rw ((==_iff r.type 1).1 t, (==_iff r.plen (length r.body)).1 e)
        (ap (λ n. some (n, r.body)) low))

-- The packet of a request whose `plen` may be too small.
framed_prefix :
    (sys : System) (r : Request) (s : HciSocket)
    → r.type ≡ 1
    → r.opcode < 65536
    → r.plen ≤ length r.body
    → Sends sys (r.opcode, take r.plen r.body) s (send_command sys r s)
framed_prefix sys r s t h e =
    (let cut : Request = record r { body = take r.plen r.body } in
      (
        memory cut,
        subst (IsWriteOf sys (memory cut) s) (sym (written sys r s))
            (writes_once sys (memory cut) s),
        parse-memory cut t h (omega (arith, length-take r.plen r.body, e)),
      ))

pub framed :
    (sys : System) (r : Request) (s : HciSocket)
    → r.type ≡ 1
    → r.opcode < 65536
    → r.plen ≡ length r.body
    → Sends sys (r.opcode, r.body) s (send_command sys r s)
framed sys r s t h e =
    subst (λ b. Sends sys (r.opcode, b) s (send_command sys r s))
      (ap (λ n. take n r.body) e ∙ take_all r.body) (framed_prefix sys r s t h (omega (arith, e)))

-- A request that is built with the size of its parameters.
pub framed_request :
    (sys : System) (opcode : ℕ) (params : Text) (s : HciSocket)
    → opcode < 65536
    → length params < 256
    → Sends sys (opcode, params) s (send_command sys (request opcode params) s)
unfolding request
framed_request sys opcode params s h l =
    framed sys (request opcode params) s refl h (omega (arith, l))

-- A request whose parameters may be longer than 8 bits can say.
pub framed_wrapped :
    (sys : System) (opcode : ℕ) (params : Text) (s : HciSocket)
    → opcode < 65536
    → Sends sys
        (opcode, take (length params % 256) params)
        s
        (send_command sys (request opcode params) s)
unfolding request
framed_wrapped sys opcode params s h =
    framed_prefix sys (request opcode params) s refl h (omega arith)
