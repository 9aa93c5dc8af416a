-- ===== src/Router/Sample.antt =====
-- A system whose only file is "a/b", of 5 bytes, and requests, for the examples.
use gfhttpd.Base.{if◌then◌else◌, refl, pos, negsuc, Bytes, bytes, bytes_eq, [], length, false, none}
use gfhttpd.Router.Calls.{System}
use gfhttpd.Router.{Stream}
use gfhttpd.Router.Serving.{IsWorking}

abbrev pub one_file : System
one_file = record {
  socketpair = (pos 0, (pos 3, pos 4));
  set_nonblocking = λ _. pos 0;
  evtimer_add = pos 0;
  open_fd = λ path. if bytes_eq path (bytes "a/b") then pos 5 else negsuc 0;
  lseek_end = λ _. pos 5;
  pipe = (pos 0, (pos 6, pos 7));
  write = λ _ text. pos (length text);
}

pub one_file-IsWorking : IsWorking one_file
one_file-IsWorking = record {
  pair = (3, 4, refl);
  nonblocking = λ _. refl;
  timer = refl;
  piping = (6, 7, refl);
  writing = λ _ _. refl;
}

abbrev pub request : Bytes → Stream
request url = record {
  url = url;
  modules_url = none;
  modules_chain = [];
  http_status = none;
  content_length = 0;
  response_fd = pos 0;
  module_cb_ev = false;
}
