-- ===== src/Common/Socket.antt =====
-- `socketImpl` (store.common/src/socket.hpp), on a system that is not Windows. The socket calls and the
-- pattern of an address are parameters.
use store_cpp.Base.{
  ℕ, ◌≡◌, ◌↔◌, refl, Bool, true, false, Option, none, some, Str, codes, ◌%◌, if◌then◌else◌, inl,
  inr, Bool-cases, arith,
}
use store_cpp.Base.Int.{ℤ, pos, negsuc}

-- `connect` gives whether it succeeded; `gethostbyname` gives the first address of a host.
pub record Net : Type 1 where
  pub World : Type 0
  pub is_address : Str → Bool
  pub inet_addr : Str → ℕ
  pub host_by_name : Str → World → Option ℕ × World
  pub new_socket : World → ℤ × World
  pub connect : ℤ → ℕ → ℕ → World → Bool × World
  pub close : ℤ → World → World
  pub print_error : Str → World → World

-- `sock` is null until a descriptor is stored; `address` and `port` are those of `sin`.
pub record SocketImpl : Type 0 where
  pub has_socket : ℕ
  pub sock : Option ℤ
  pub address : ℕ
  pub port : ℕ

module _ (N : Net) where
  open N use {World}

  -- The part behind the address. The test `sock < 0` is on the pointer, so no descriptor fails it.
  unfoldable pub store_socket : ℕ → ℕ → ℤ × World → SocketImpl × World
  store_socket address port (fd, w) =
      (record { has_socket = 1; sock = some fd; address = address; port = port % 65536 }, w)

  unfoldable pub resolved : ℕ → Option ℕ × World → SocketImpl × World
  unfolding store_socket
  resolved port (none, w) = (record { has_socket = 0; sock = none; address = 0; port = 0 }, w)
  resolved port (some address, w) = store_socket address port (N.new_socket w)

  -- The constructor, with `createSocket`.
  unfoldable pub make_socket : Str → ℕ → World → SocketImpl × World
  unfolding resolved
  make_socket hostname port w =
      if N.is_address hostname
      then resolved port (some (N.inet_addr hostname), w)
      else resolved port (N.host_by_name hostname w)

  unfoldable pub after_connect : Bool × World → ℤ × World
  after_connect (true, w) = (pos 0, w)
  after_connect (false, w) = (negsuc 0, N.print_error (codes "failed to connect!\n") w)

  -- `*sock` of a null pointer is undefined, which is `none`.
  unfoldable pub connect_fd : SocketImpl → Option ℤ → World → Option (ℤ × World)
  unfolding after_connect
  connect_fd s none w = none
  connect_fd s (some fd) w = some (after_connect (N.connect fd s.address s.port w))

  unfoldable pub connect_impl : SocketImpl → World → Option (ℤ × World)
  unfolding connect_fd
  connect_impl s w = connect_fd s s.sock w

  -- `~socketImpl`
  unfoldable pub destroy : Option ℤ → World → Option World
  destroy none w = none
  destroy (some fd) w = some (N.close fd w)

  resolved-destroy :
      (port : ℕ) (r : Option ℕ × World) (v : World)
      → (destroy (resolved port r).0.sock v ≡ none) ↔ ((resolved port r).0.has_socket ≡ 0)
  unfolding resolved destroy
  resolved-destroy port (none, w) v = (λ _. refl, λ _. refl)
  resolved-destroy port (some a, w) v = (λ h. cc, λ h. absurd (omega (arith, h)))

  -- The destructor of a socket is undefined exactly if the host of its constructor was not found,
  -- which `hasSocket` tells.
  make_socket-destroy :
      (hostname : Str) (port : ℕ) (w v : World)
      → let s = (make_socket hostname port w).0 in (destroy s.sock v ≡ none) ↔ (s.has_socket ≡ 0)
  unfolding make_socket
  make_socket-destroy hostname port w v = elim (Bool-cases (N.is_address hostname)) [
    | inl e ↦ rw e (resolved-destroy port (some (N.inet_addr hostname), w) v)
    | inr e ↦ rw e (resolved-destroy port (N.host_by_name hostname w) v)
  ]
