-- ===== src/Tests/Http.antt =====
-- A connection over which a reply arrives byte by byte, and breaks off in the body.
use gdut_net.Base.{
  ℕ, ◌<◌, ◌-◌, ◌≡◌, ◌≢◌, refl, ap, sym, subst, true, Option, none, some, List, [], ◌∷◌, ◌++◌,
  length, arith, ◌≤◌,
}
use gdut_net.Ipv4.{Ipv4Addr, codes, parse_ipv4}
use gdut_net.Http.{Target, parse_url}
use gdut_net.Http.Transport.{
  Net, Request, accept_partial, response, target_address, headers_complete,
}
use gdut_net.Http.Transport.Chunks.{IsLossy}
use gdut_net.Http.Transport.Headers.{head_of}
use gdut_net.Http.Transport.Pieces.{IsSource, get_async_in_pieces}
use gdut_net.Http.Transport.Tokio.{Sockets, open_stream, get_async}

-- The bytes that come before the connection breaks.
abbrev Wire : Type 0
Wire = List ℕ

-- A read gives the next byte, and fails where the connection has broken.
abbrev read_byte : Wire → Option (List ℕ) × Wire
read_byte [] = (none, [])
read_byte (b ∷ bs) = (some (b ∷ []), bs)

abbrev line : Net Wire
line = record {
  from_utf8_lossy = λ bytes. bytes;
  now = λ t. 0;
  bind = λ ip t. (true, t);
  connect = λ addr port budget t. (true, t);
  write = λ bytes budget t. (some (length bytes), t);
  read = λ limit budget t. read_byte t;
}

abbrev sockets : Sockets Wire
sockets = record {
  connect = λ addr port t. (true, t);
  write_all = λ bytes t. (true, t);
  read = λ limit t. read_byte t;
  expires = λ deadline t. none;
}

line-IsLossy : IsLossy line
line-IsLossy = record { nothing = refl; ascii = λ x y b small. refl }

-- The wire has the sure part of the reply, and loses what comes after it.
abbrev Supplies : ℕ → List ℕ → Wire → Type 0
Supplies sure bytes t = (lost : List ℕ) × (bytes ≡ t ++ lost) × (length t ≡ sure)

abbrev Given : ℕ → ℕ → List ℕ → Wire → Type 0
Given limit sure bytes t =
    (chunk : List ℕ) × (rest : List ℕ) × ((read_byte t).0 ≡ some chunk)
    × (chunk ≢ [])
    × (length chunk ≤ limit)
    × (bytes ≡ chunk ++ rest)
    × Supplies (sure - length chunk) rest (read_byte t).1

given :
    (limit sure : ℕ) (bytes : List ℕ) (t : Wire)
    → Supplies sure bytes t
    → 0 < sure
    → 0 < limit
    → Given limit sure bytes t
given limit sure bytes [] (lost, e, size) some_left positive =
    absurd (omega (arith, size, some_left))
given limit sure bytes (b ∷ t) (lost, e, size) some_left positive = (
  b ∷ [],
  t ++ lost,
  refl,
  (λ x. ground (arith, x)),
  omega arith,
  e,
  (lost, refl, omega (arith, size)),
)

line-IsSource : IsSource line sockets Supplies
line-IsSource = record {
  reading =
      λ limit sure bytes t has some_left positive. given limit sure bytes t has some_left positive;
}

abbrev request : Request
request = record {
  url = codes "http://1.2.3.4/";
  bind_ip = record { a = 10; b = 0; c = 0; d = 2 };
  user_agent = codes "gdut";
  timeout = 1000;
  max_bytes = 4096;
  read_policy = accept_partial;
}

abbrev target : Target × Ipv4Addr
target = (
  record { host = codes "1.2.3.4"; port = 80; path = codes "/"; host_header = codes "1.2.3.4" },
  record { a = 1; b = 2; c = 3; d = 4 },
)

abbrev headers : List ℕ
headers = codes "HTTP/1.0 302 Found\r\nLocation: http://Portal/\r\n\r\n"

abbrev body : List ℕ
body = codes "<html>"

target_found : target_address line request.url ≡ some target
unfolding target_address parse_url parse_ipv4
target_found = refl

request_sent : open_stream line sockets request target headers ≡ (true, headers)
unfolding open_stream
request_sent = refl

headers_whole : headers_complete headers ≡ true
unfolding headers_complete
headers_whole = refl

-- The reply is sure up to its headers, when the request has been sent.
headers_sure :
    Supplies (length headers) (headers ++ body) (open_stream line sockets request target headers).1
headers_sure =
    subst (λ r. Supplies (length headers) (headers ++ body) r.1) (sym request_sent)
      (body, refl, refl)

get_async_in_pieces_example :
    head_of (get_async line sockets request headers).0 ≡ head_of (response line (headers ++ body))
get_async_in_pieces_example =
    get_async_in_pieces line sockets Supplies line-IsSource request target headers body headers
      line-IsLossy refl refl target_found (ap (λ r. r.0) request_sent) headers_sure headers_whole
      (omega arith)

response_read : head_of (response line (headers ++ body)) ≡ some (302, codes "http://portal/")
unfolding response gdut_net.Http.split_once
response_read = refl
