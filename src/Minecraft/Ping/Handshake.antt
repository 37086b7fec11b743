-- ===== src/Minecraft/Ping/Handshake.antt =====
-- What a server reads from the handshake.
use voxellink_monitor.Common.{
  ℕ, ◌+◌, ◌*◌, ◌%◌, ◌^◌, ◌≤◌, ◌<◌, ◌≡◌, ap, List, [], ◌∷◌, ◌++◌, arith, Result, ok, err, ltb, ◌==◌,
  if◌then◌else◌, length, take, drop, length-append, take-append, drop-append,
}
use mathlib.Core.List.{append_assoc}
use voxellink_monitor.Minecraft.Codec.{var_int, ReadError, no_byte, too_long, read_var_int}
use voxellink_monitor.Minecraft.Codec.RoundTrip.{read_var_int-var_int, length-var_int-le}
use voxellink_monitor.Minecraft.Ping.{handshake_packet, handshake, put_uint16}

pub record Hello : Type 0 where
  pub protocol : ℕ
  pub host : List ℕ
  pub port : ℕ
  pub next_state : ℕ

infixl 5 ◌>>=◌
abbrev ◌>>=◌ {ℓ κ} :
    {A : Type ℓ} {B : Type κ} → Result ReadError A → (A → Result ReadError B) → Result ReadError B
ok a >>= f = f a
err e >>= f = err e

-- A reading of the protocol, from the side of the server.
abbrev read_byte : List ℕ → Result ReadError (ℕ × List ℕ)
read_byte [] = err no_byte
read_byte (b ∷ bytes) = ok (b, bytes)

abbrev read_bytes : ℕ → List ℕ → Result ReadError (List ℕ × List ℕ)
read_bytes n bytes = if ltb (length bytes) n then err no_byte else ok (take n bytes, drop n bytes)

-- The id of a handshake is 0.
abbrev read_id : List ℕ → Result ReadError (ℕ × List ℕ)
read_id [] = err no_byte
read_id (b ∷ bytes) = if b == 0 then ok (b, bytes) else err too_long

-- The fields of a packet, with nothing left.
abbrev finish : Hello → List ℕ → Result ReadError Hello
finish hello [] = ok hello
finish hello (b ∷ bytes) = err too_long

read_fields : List ℕ → Result ReadError Hello
read_fields packet = do
  (id, s₁) ← read_id packet
  (protocol, s₂) ← read_var_int s₁
  (n, s₃) ← read_var_int s₂
  (host, s₄) ← read_bytes n s₃
  (high, s₅) ← read_byte s₄
  (low, s₆) ← read_byte s₅
  (next, s₇) ← read_byte s₆
  finish (record { protocol = protocol; host = host; port = high * 256 + low; next_state = next })
      s₇

pub read_hello : List ℕ → Result ReadError (Hello × List ℕ)
unfolding read_fields
read_hello bytes = do
  (size, s) ← read_var_int bytes
  (packet, rest) ← read_bytes size s
  hello ← read_fields packet
  ok (hello, rest)

read_bytes-append : (xs ys : List ℕ) → read_bytes (length xs) (xs ++ ys) ≡ ok (xs, ys)
read_bytes-append xs ys = ground (arith, length-append xs ys, take-append xs ys, drop-append xs ys)

abbrev hello_of : List ℕ → ℕ → Hello
hello_of host port = record { protocol = 765; host = host; port = port % 65536; next_state = 1 }

read_fields-handshake_packet :
    (host : List ℕ) (port : ℕ)
    → length host < 2 ^ 34
    → read_fields (handshake_packet host port) ≡ ok (hello_of host port)
unfolding read_fields handshake_packet
read_fields-handshake_packet host port fits =
    rw
      (
        read_var_int-var_int 765 _ (omega arith),
        read_var_int-var_int (length host) _ (omega arith),
        read_bytes-append host _,
      )
      (ap (λ (p : ℕ). ok (record { protocol = 765; host = host; port = p; next_state = 1 }))
        (omega arith))

length-handshake_packet :
    (host : List ℕ) (port : ℕ) → length (handshake_packet host port) ≤ length host + 30
unfolding handshake_packet
length-handshake_packet host port = omega (
  arith,
  length-append {0} (var_int 765)
      (var_int (length host) ++ (host ++ (put_uint16 port ++ (1 ∷ [])))),
  length-append {0} (var_int (length host)) (host ++ (put_uint16 port ++ (1 ∷ []))),
  length-append {0} host (put_uint16 port ++ (1 ∷ [])),
  length-var_int-le 765,
  length-var_int-le (length host),
)

-- Whatever follows it, a server reads one whole packet with the id 0 from the handshake: the version
-- 765, the host as it was given, the port as 16 bits, and the next state STATUS, if the host has
-- fewer than 2^34 bytes.
pub read_hello-handshake :
    (host : List ℕ) (port : ℕ) (rest : List ℕ)
    → length host < 2 ^ 34
    → read_hello (handshake host port ++ rest)
      ≡ ok (record { protocol = 765; host = host; port = port % 65536; next_state = 1 }, rest)
unfolding read_hello handshake
read_hello-handshake host port rest fits =
    let packet = handshake_packet host port in
    rw (
      append_assoc,
      read_var_int-var_int (length packet) (packet ++ rest)
          (omega (arith, length-handshake_packet host port)),
      read_bytes-append packet rest,
      read_fields-handshake_packet host port fits,
    )
