-- ===== src/Tests/Shells.antt =====
-- Lines of the shell.
use p_and_pp.Base.{◌≢◌, eq_iff, arith, ℕ, ◌≡◌, refl, String, [], ◌∷◌, some, inl, false}
use p_and_pp.Base.Results.{Result, ok}
use p_and_pp.Base.Texts.{Text, codes}
use p_and_pp.Ice.Connection.{Connection, Bytes}
use p_and_pp.Ice.Scan.{is_space}
use p_and_pp.App.{App, sends, prints}
use p_and_pp.App.Words.{fields, trim_space}
use p_and_pp.App.Shell.{turn}
use p_and_pp.App.Shell.Commands.{Ends, submitted, turn_submits_nothing, send_joined}
use p_and_pp.Tests.Samples.{Doc}
use p_and_pp.Tests.Gathering.{Socket, net}
use p_and_pp.Tests.Connecting.{candidate_at, socket}
use p_and_pp.Tests.Calls.{codecs, app, clock}

trimmed : trim_space "  /send a  b\t" ≡ "/send a  b"
unfolding trim_space is_space
trimmed = refl

abbrev pub wrote : Doc → Result (Unit {0})
wrote d = ok tt

abbrev pub send_to : Socket → Bytes → Text → Result ℕ
send_to s b t = ok 5

abbrev pub bytes : String → Bytes
bytes s = codes s

signal_words : fields "/signal bob hi" ≡ "/signal" ∷ "bob" ∷ "hi" ∷ []
unfolding fields is_space
signal_words = refl

not_ice : ◌≢◌ {A = String} "/signal" "/ice"
not_ice e = ground (arith, eq_iff "/signal" "/ice")

not_offer : ◌≢◌ {A = String} "/signal" "/offer"
not_offer e = ground (arith, eq_iff "/signal" "/offer")

turn_submits_nothing_example :
    (submitted net codecs wrote send_to bytes
        (turn net codecs wrote send_to bytes clock 10000 app "/signal bob hi").2
      ≡ [])
    × ((turn net codecs wrote send_to bytes clock 10000 app "/signal bob hi").0 ≡ 10000)
    × ((turn net codecs wrote send_to bytes clock 10000 app "/signal bob hi").1 ≡ app)
turn_submits_nothing_example =
    turn_submits_nothing net codecs wrote send_to bytes clock 10000 app "/signal bob hi" "/signal"
      ("bob" ∷ "hi" ∷ []) signal_words not_ice not_offer

abbrev pub direct : Connection Socket
direct = record {
  local_candidate = candidate_at (codes "a") 1;
  remote_candidate = candidate_at (codes "b") 2;
  conn = some socket;
  remote_addr = codes "b:2";
  closed = false;
  has_handler = false;
}

abbrev pub joined_app : App Socket
joined_app = record app { ice_conn = some direct }

send_words : fields "/send  a   b" ≡ "/send" ∷ "a" ∷ "b" ∷ []
unfolding fields is_space
send_words = refl

send_joined_example :
    (text : String) × (turn net codecs wrote send_to bytes clock 10000 joined_app "/send  a   b"
      ≡ (10000, joined_app, sends text (ok tt) ∷ prints "Sent via direct UDP!" ∷ [], false))
    × (fields text ≡ "a" ∷ "b" ∷ [])
unfolding is_space
send_joined_example =
    send_joined net codecs wrote send_to bytes clock 10000 joined_app "/send  a   b" "a" ("b" ∷ [])
      direct socket 5 send_words ((refl, tt), ((refl, tt), tt)) refl refl refl refl

pub quit_line : Ends " /quit now"
unfolding fields is_space
quit_line = ("now" ∷ [], inl refl)
