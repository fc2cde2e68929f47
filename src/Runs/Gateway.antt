-- ===== src/Runs/Gateway.antt =====
-- Runs of the ingest gateway, with bodies whose lines are all their own text.
use multi_log.Prelude.{
  trim_space, get, ◌≡◌, refl, arith, List, [], ◌∷◌, ◌++◌, none, some, Bytes, codes, pos, TimeFormat,
  ok, err, text, done, Run,
}
use multi_log.Crypto.{genesis}
use multi_log.Chain.{Entry}
use multi_log.Ingest.{LogStore, Sealer, seal_batch}
use multi_log.Ingest.Body.{Json, parse_log_objects}
use multi_log.Ingest.Lines.{join_lines, objects_of, parse_log_objects-join_lines}
use multi_log.Ingest.Handler.{Request, Response, accepted, serve_ingest}
use multi_log.Ingest.Replies.{Served, serve_ingest-Served, serve_ingest_total}
use multi_log.Runs.Toy.{toy, acme}

instance abbrev clock : TimeFormat
clock = record { parse_rfc3339_nano = λ s. none; format_rfc3339_nano = λ t. codes "t" }

-- No text is JSON, and an object is its message.
abbrev plain : Json
plain = record {
  Object = Bytes;
  string_field = λ key o. some o;
  unmarshal_array = λ s. err (text (codes "no array"));
  unmarshal_object = λ s. none;
  marshal = λ o. some o;
  message_object = λ line. line;
  message_field = λ line. refl;
}

-- " a\n\nb \n"
abbrev body : Bytes
body = codes " a" ++ 10 ∷ 10 ∷ codes "b " ++ 10 ∷ []

abbrev body_lines : List Bytes
body_lines = codes "a" ∷ [] ∷ codes "b" ∷ []

trimmed : trim_space body ≡ join_lines body_lines
unfolding trim_space
trimmed = refl

parse_log_objects-join_lines_example :
    parse_log_objects plain body ≡ ok (objects_of plain body_lines)
parse_log_objects-join_lines_example =
    parse_log_objects-join_lines plain body body_lines trimmed (omega arith) (
      ((omega arith, tt), omega arith),
      ((tt, omega arith), (((omega arith, tt), omega arith), tt)),
    )

abbrev logs : LogStore
logs = record {
  State = List Entry;
  head = λ t held. ok (0, genesis t);
  append = λ new held. (ok tt, held ++ new);
}

abbrev request : Request
request = record {
  method = codes "POST";
  api_key = codes "k";
  x_source = [];
  body = body;
  read_error = none;
}

abbrev start : Sealer logs
start = record { store = []; heads = [] }

abbrev served : Run Response × Sealer logs
served = serve_ingest plain logs (pos 7) (λ key. ok acme) request start

accepts : served ≡ (done (accepted 2 acme 0 1), served.1)
unfolding serve_ingest parse_log_objects seal_batch get
accepts = refl

serve_ingest-Served_example : Served plain logs (ok acme) request acme start served.1 2 0 1
serve_ingest-Served_example =
    serve_ingest-Served plain logs (λ key. ok acme) request (pos 7) start served.1 acme 2 0 1
      accepts

serve_ingest_total_example :
    (response : Response) × ((serve_ingest plain logs (pos 7) (λ key. ok acme) request start).0
      ≡ done response)
serve_ingest_total_example = serve_ingest_total plain logs (λ key. ok acme) request (pos 7) start
