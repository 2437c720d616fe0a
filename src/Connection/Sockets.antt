-- ===== src/Connection/Sockets.antt =====
-- The map of clients seen as a function from users to their sockets.
use thunderchat_server.Base.{
  ℕ, ◌≡◌, refl, false, not, none, some, List, [], ◌∷◌, ◌++◌, arith, ◌==◌, if◌then◌else◌, filter,
  nat_eq, string_eq, Option,
}
use thunderchat_server.Base.JsMap.{get, get-set, get-delete}
use thunderchat_server.Connection.{
  Clients, Socket, or_empty, with_client, without_socket, add_connected_client,
  remove_connected_client,
}

abbrev pub sockets_of : Clients → ℕ → List Socket
sockets_of clients user_id = or_empty (get clients user_id)

with_client_lem : (o : Option (List Socket)) (c : Socket) → with_client o c ≡ or_empty o ++ c ∷ []
with_client_lem none c = refl
with_client_lem (some []) c = refl
with_client_lem (some (x ∷ xs)) c = ground arith

-- Connecting adds one socket at the end of the user's, and leaves every other user's alone.
pub sockets_of-add :
    (m : Clients) (u v : ℕ) (c : Socket)
    → sockets_of (add_connected_client m u c) v
      ≡ (if u == v then sockets_of m u ++ c ∷ [] else sockets_of m v)
unfolding add_connected_client
sockets_of-add m u v c =
    ground (arith, get-set m u v (with_client (get m u) c), with_client_lem (get m u) c)

without_socket_lem :
    (o : Option (List Socket)) (k : Socket) (m : Clients) (u v : ℕ)
    → get m u ≡ o
    → sockets_of (without_socket o k m u) v
      ≡ (if u == v then filter (λ s. not (s == k)) (or_empty o) else sockets_of m v)
without_socket_lem none k m u v h = ground arith
without_socket_lem (some []) k m u v h = ground arith
without_socket_lem (some (x ∷ xs)) k m u v h =
    ground (arith, get-set m u v (filter (λ s. not (s == k)) (x ∷ xs)))

-- Closing the socket `k` takes exactly that socket from the user, and leaves every other user's
-- sockets alone. `k` is not the empty string.
pub sockets_of-remove :
    (m : Clients) (u v : ℕ) (k : Socket)
    → (k == "") ≡ false
    → sockets_of (remove_connected_client m u (some k)) v
      ≡ (if u == v then filter (λ s. not (s == k)) (sockets_of m u) else sockets_of m v)
unfolding remove_connected_client
sockets_of-remove m u v k h = rw h (without_socket_lem (get m u) k m u v refl)

-- With no socket id every socket of the user goes.
pub sockets_of-remove_all :
    (m : Clients) (u v : ℕ)
    → sockets_of (remove_connected_client m u none) v ≡ (if u == v then [] else sockets_of m v)
unfolding remove_connected_client
sockets_of-remove_all m u v = ground (arith, get-delete m u v)
