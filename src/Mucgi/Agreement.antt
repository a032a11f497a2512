-- ===== src/Mucgi/Agreement.antt =====
-- The codec of mucgi against that of cocgi.
use fastcgi_async_or_corouti.Base.{ℕ, zero, suc, ◌+◌, ◌/◌, ◌≡◌, refl, ap, Bytes, length, arith}
use fastcgi_async_or_corouti.Cocgi.Header.{RecordHeader, load_header}
use fastcgi_async_or_corouti.Cocgi.Params.{
  ParamState, peek_int32, read_len, take_pair, parse_round, parse_loop, parse_all_params,
}
use fastcgi_async_or_corouti.Mucgi.Params.{
  peek_int32 as mu_peek_int32, read_len as mu_read_len, take_pair as mu_take_pair,
  parse_round as mu_parse_round, parse_loop as mu_parse_loop,
  parse_all_params as mu_parse_all_params,
}
use fastcgi_async_or_corouti.Cocgi.Codec.{
  Codec, on_begin_request, on_params, on_stdin, dispatch, parse_step, package_loop,
  parse_fcgi_package,
}
use fastcgi_async_or_corouti.Mucgi.Codec.{
  Codec as MuCodec, on_begin_request as mu_on_begin_request, on_params as mu_on_params,
  on_stdin as mu_on_stdin, dispatch as mu_dispatch, parse_step as mu_parse_step, request_loop,
  parse_request,
}
use fastcgi_async_or_corouti.Cocgi.Respond.{
  output_or_default, full_records, append_output, append_stdout, end_stdout, end_request, respond,
}
use fastcgi_async_or_corouti.Mucgi.Respond.{
  max_length, full_records as mu_full_records, append_output as mu_append_output,
  append_stdout as mu_append_stdout, end_stdout as mu_end_stdout, end_request as mu_end_request,
  respond as mu_respond,
}

take_pair_eq : (m n : ℕ) (st : ParamState) → mu_take_pair m n st ≡ take_pair m n st
unfolding take_pair mu_take_pair
take_pair_eq m n st = refl

parse_round_eq : (st : ParamState) → mu_parse_round st ≡ parse_round st
unfolding parse_round mu_parse_round read_len mu_read_len peek_int32 mu_peek_int32
parse_round_eq st = refl

parse_loop_eq : (f : ℕ) (st : ParamState) → mu_parse_loop f st ≡ parse_loop f st
unfolding parse_loop mu_parse_loop
parse_loop_eq zero st = refl
parse_loop_eq (suc f) st = ground (arith, parse_round_eq st, parse_loop_eq f (parse_round st).1)

parse_all_params_eq : (st : ParamState) → mu_parse_all_params st ≡ parse_all_params st
unfolding parse_all_params mu_parse_all_params
parse_all_params_eq st = parse_loop_eq (length st.stream) st

-- The codec and the connection's buffer, as a codec of cocgi.
abbrev pub as_cocgi : Bytes → MuCodec → Codec
as_cocgi buf c = record {
  got_request = c.got_request;
  keep_conn = c.keep_conn;
  buf = buf;
  stdin = c.stdin;
  params_stream = c.params_stream;
  params = c.params;
}

dispatch_eq :
    (h : RecordHeader) (buf : Bytes) (c : MuCodec)
    → as_cocgi buf (mu_dispatch h buf c) ≡ dispatch h (as_cocgi buf c)
unfolding dispatch mu_dispatch on_begin_request mu_on_begin_request on_params mu_on_params on_stdin
    mu_on_stdin
dispatch_eq h buf c =
    ground (arith, parse_all_params_eq (record { stream = c.params_stream; params = c.params }))

parse_step_eq :
    (buf : Bytes) (c : MuCodec)
    → parse_step (as_cocgi buf c)
      ≡ ((mu_parse_step buf c).0, as_cocgi (mu_parse_step buf c).1 (mu_parse_step buf c).2)
unfolding parse_step mu_parse_step
parse_step_eq buf c = ground (arith, dispatch_eq (load_header buf) buf c)

request_loop_eq :
    (f : ℕ) (buf : Bytes) (c : MuCodec)
    → package_loop f (as_cocgi buf c) ≡ as_cocgi (request_loop f buf c).0 (request_loop f buf c).1
unfolding package_loop request_loop
request_loop_eq zero buf c = refl
request_loop_eq (suc f) buf c =
    ground (
      arith,
      parse_step_eq buf c,
      request_loop_eq f (mu_parse_step buf c).1 (mu_parse_step buf c).2,
    )

-- On the same bytes and from the same state, `parseRequest` of mucgi and `parseFcgiPackage` of cocgi
-- leave the same state and the same bytes.
pub parse_request-agrees :
    (buf : Bytes) (c : MuCodec)
    → parse_fcgi_package (as_cocgi buf c) ≡ as_cocgi (parse_request buf c).0 (parse_request buf c).1
unfolding parse_fcgi_package parse_request
parse_request-agrees buf c = request_loop_eq (length buf) buf c

full_records_eq :
    (n i : ℕ) (out response : Bytes)
    → mu_full_records n i out response ≡ full_records n i out response
unfolding full_records mu_full_records append_stdout mu_append_stdout
full_records_eq zero i out response = refl
full_records_eq (suc n) i out response = full_records_eq n (i + 1) out _

append_output_eq :
    (out response : Bytes) → mu_append_output out response ≡ append_output out response
unfolding append_output mu_append_output append_stdout mu_append_stdout
append_output_eq out response = rw (full_records_eq (length out / max_length) 0 out response)

-- `respond` writes the same bytes in both servers.
pub respond-agrees : (out response : Bytes) → mu_respond out response ≡ respond out response
unfolding respond mu_respond end_request mu_end_request end_stdout mu_end_stdout
respond-agrees out response =
    ap (λ t. end_request (end_stdout t)) (append_output_eq (output_or_default out) response)
