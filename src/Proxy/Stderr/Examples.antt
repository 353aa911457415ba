-- ===== src/Proxy/Stderr/Examples.antt =====
-- Runs of the message loops, as the tests of stderr.rs have them.
use claudepod.Prelude.{◌≡◌, refl, true, false, ◌++◌, Bytes, ascii, bytes_eq}
use claudepod.Outcome.{ok, err, message}
use claudepod.Outcome.Trace.{Does}
use claudepod.Wire.{Stream, le_bytes}
use claudepod.Wire.Copy.{Duplex}
use claudepod.Wire.Format.{word, string_frame}
use claudepod.Wire.Reading.{IsReady, IsReady-all_bytes, stream_trace}
use claudepod.Wire.Writing.{written}
use claudepod.Wire.Moves.{duplex_trace}
use claudepod.Wire.RoundTrip.{stream, empty_sink}
use claudepod.Proxy.Stderr.{Terminal, Drained, stderr_next, stderr_last, stderr_read}
use claudepod.Proxy.Stderr.Loops.{
  relay, relay_without_last, drain_to_terminal, drain_to_last, stderr_code,
}
use claudepod.Proxy.Stderr.Relay.{Exchanged, Broken, relay-verbatim, relay_without_last-withholds}
use claudepod.Proxy.Stderr.Drain.{drained_as, Emptied, drain_to_terminal-takes, drain_to_last-takes}

abbrev one_line : Bytes
one_line = word stderr_next ++ (string_frame (ascii "copying") ++ word stderr_last)

abbrev host : Stream
host = stream one_line true

abbrev duplex : Duplex
duplex = record { input = host; output = empty_sink }

host-IsReady : IsReady host
unfolding le_bytes ascii string_frame
host-IsReady = IsReady-all_bytes host refl

relayed : ((relay duplex).0 ≡ ok Terminal.last) × (written (relay duplex).1.output ≡ one_line)
unfolding stderr_code string_frame written bytes_eq
relayed = (refl, refl)

streaming_refused :
    (relay (record { input = stream (word stderr_read) true; output = empty_sink })).0
    ≡ err (message (ascii "host daemon sent streaming stderr message 0x64617461 during a query op"))
unfolding stderr_code
streaming_refused = refl

relay-verbatim_example :
    Does duplex_trace relay duplex (λ t a. (a.put ≡ a.taken) × Exchanged true t a) Broken
relay-verbatim_example = relay-verbatim duplex host-IsReady

relay_without_last-withholds_example :
    Does duplex_trace relay_without_last duplex (Exchanged false) Broken
relay_without_last-withholds_example = relay_without_last-withholds duplex host-IsReady

drain_to_terminal-takes_example : Does stream_trace drain_to_terminal host Emptied (λ _. Unit {0})
drain_to_terminal-takes_example = drain_to_terminal-takes host host-IsReady

drain_to_last-takes_example :
    Does stream_trace drain_to_last host
      (λ _ t. (d : Drained) × (drained_as d ≡ Terminal.last) × Emptied d t)
      (λ _. Unit {0})
drain_to_last-takes_example = drain_to_last-takes host host-IsReady
