-- ===== src/Proxy/HostClient/Examples.antt =====
-- `EnsurePath` on a connection, as in the tests of host_client.rs.
use claudepod.Prelude.{◌≡◌, ◌⊎◌, refl, true, [], ◌++◌, Bytes, ascii, bytes_eq}
use claudepod.Outcome.{ok}
use claudepod.Outcome.Trace.{Does}
use claudepod.Wire.{le_bytes}
use claudepod.Wire.Copy.{Duplex}
use claudepod.Wire.Format.{word, string_frame}
use claudepod.Wire.Reading.{IsReady, IsReady-all_bytes}
use claudepod.Wire.Moves.{duplex_trace}
use claudepod.Wire.RoundTrip.{stream, empty_sink}
use claudepod.Proxy.Handshake.{Version, worker_magic_2}
use claudepod.Proxy.Handshake.Legs.{hello, features_sent}
use claudepod.Proxy.RunRoots.Members.{IsDirect}
use claudepod.Proxy.Stderr.{stderr_last}
use claudepod.Proxy.HostClient.{ensure_path_on_connection, host_client_code}
use claudepod.Proxy.HostClient.Requests.{request, ensure_path_on_connection-request}

abbrev store_path : Bytes
store_path = ascii "/nix/store/aaa111-one"

abbrev host : Duplex
host = record {
  input =
      stream
        (word worker_magic_2
          ++ (word 0x126
              ++ (word 0
                  ++ (string_frame (ascii "2.34.7")
                      ++ (word 2 ++ (word stderr_last ++ (word stderr_last ++ word 1)))))))
        true;
  output = empty_sink;
}

filled : (ensure_path_on_connection (λ _. []) store_path host).0 ≡ ok tt
unfolding host_client_code string_frame bytes_eq
filled = refl

host-IsReady : IsReady host.input
unfolding le_bytes ascii string_frame
host-IsReady = IsReady-all_bytes host.input refl

ensure_path_on_connection-request_example :
    Does duplex_trace
      (ensure_path_on_connection (λ _. []) store_path)
      host
      (λ _ a.
        IsDirect store_path
        × (v : Version) × (a.put
            ≡ (hello ++ features_sent v) ++ (word 0 ++ (word 0 ++ request store_path))))
      (λ a. (a.put ≡ []) ⊎ IsDirect store_path)
ensure_path_on_connection-request_example =
    ensure_path_on_connection-request (λ _. []) store_path host host-IsReady
