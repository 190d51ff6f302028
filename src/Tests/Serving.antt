-- ===== src/Tests/Serving.antt =====
-- A server that is told to end.
use gcosmos.Base.{◌≤◌, refl, inl, ◌⊎◌, true, false, bytes_key}
use gcosmos.Server.Serving.{
  Serving, new_http_server, Turn, shuts_down, cancels, Reached, here, by_outside, Turns, no_turn,
  then_turn,
}
use gcosmos.Server.Serving.Ends.{HasEnded, server_ends}

-- The context of a running HTTP server is cancelled, and the watcher stops the server.
abbrev cancelled : Serving
cancelled = record {
  serving = true;
  watching = true;
  done = false;
  ctx_done = true;
  listening = true;
  stopped = false;
}

abbrev shut_down : Serving
shut_down = record {
  serving = true;
  watching = false;
  done = false;
  ctx_done = true;
  listening = false;
  stopped = true;
}

cancelled-Reached : Reached new_http_server cancelled
unfolding new_http_server
cancelled-Reached = by_outside here (cancels new_http_server)

cancelled_turns : Turns 1 cancelled shut_down
cancelled_turns = then_turn (no_turn cancelled) (shuts_down cancelled refl refl)

server_ends_example : (1 ≤ 2) × (HasEnded shut_down ⊎ ((s : Serving) × Turn shut_down s))
server_ends_example =
    server_ends 1 new_http_server cancelled shut_down (inl refl) cancelled-Reached (inl refl)
      cancelled_turns
