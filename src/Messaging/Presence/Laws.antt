-- ===== src/Messaging/Presence/Laws.antt =====
-- What the disconnection of one socket does to its user and to the others.
use thunderchat_server.Base.{
  ℕ, ◌≡◌, refl, ◌∙◌, true, false, not, none, some, [], ◌∷◌, ◌==◌, if◌then◌else◌, filter, includes,
  includes-filter_other, nat_eq, string_eq, eq_refl,
}
use thunderchat_server.Base.JsMap.{get-delete}
use thunderchat_server.Connection.{
  Socket, online, offline, get_user_online_status, get_user_chatting_connection,
  remove_chatting_connection, remove_connected_client,
}
use thunderchat_server.Connection.Sockets.{sockets_of, sockets_of-remove}
use thunderchat_server.Connection.History.{nonempty_of_includes}
use thunderchat_server.Messaging.Tokens.Replay.{tokens_of, tokens_of-remove_all}
use thunderchat_server.Messaging.Presence.{
  Presence, handle_disconnect, handle_check_user_online_status,
}

-- The disconnection of a socket of a user whose id is not 0 takes that socket, all direct chats that
-- the user has opened, and all tokens of the user; those of every other user are left.
pub handle_disconnect_lem :
    (p : Presence) (client : Socket) (u v : ℕ)
    → (client == "") ≡ false
    → (u == 0) ≡ false
    → let p' = handle_disconnect client (some u) p in
      (sockets_of p'.connected_clients v ≡ (
        if u == v
        then filter (λ s. not (s == client)) (sockets_of p.connected_clients u)
        else sockets_of p.connected_clients v))
      × (get_user_chatting_connection p'.user_chatting_connections v
          ≡ (if u == v then none else get_user_chatting_connection p.user_chatting_connections v))
      × (tokens_of p'.tokens v ≡ (if u == v then [] else tokens_of p.tokens v))
unfolding handle_disconnect get_user_chatting_connection remove_chatting_connection
handle_disconnect_lem p client u v named given = rw given (
  sockets_of-remove p.connected_clients u v client named,
  get-delete p.user_chatting_connections u v,
  tokens_of-remove_all u v p.tokens,
)

-- Where a user whose id is not 0 has another socket open than the one that closes, every client is
-- told that the user is offline, while the server itself answers that the user is online.
pub handle_disconnect-offline :
    (p : Presence) (client other : Socket) (u : ℕ)
    → (client == "") ≡ false
    → (u == 0) ≡ false
    → (other == client) ≡ false
    → includes (sockets_of p.connected_clients u) other ≡ true
    → let p' = handle_disconnect client (some u) p in
      (p'.announced ≡ (u, offline) ∷ p.announced) × (handle_check_user_online_status u p' ≡ online)
unfolding handle_disconnect handle_check_user_online_status get_user_online_status
handle_disconnect-offline p client other u named given differs open_there =
    let rest = remove_connected_client p.connected_clients u (some client) in
    let left : includes (sockets_of rest u) other ≡ true =
      rw (sockets_of-remove p.connected_clients u u client named, eq_refl u)
        (includes-filter_other (sockets_of p.connected_clients u) client other differs
          ∙ open_there) in
    rw given (refl, rw (nonempty_of_includes (sockets_of rest u) other left) refl)
