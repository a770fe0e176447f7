-- ===== src/Webui/ClientInfo.antt =====
-- internal/webui/handlers.go: handleRepoClientInfo and requestHost.
use ngxborg.Base.{
  ℕ, suc, ◌+◌, ◌-◌, not, ◌||◌, [], ◌∷◌, ◌++◌, Option, none, some, if◌then◌else◌, take, drop, ◌==◌,
}
use ngxborg.Text.{Text, codes, contains_char, index}
use ngxborg.Text.Decimal.{ℤ, pos, itoa}
use ngxborg.Machine.Error.{Result, ok, err}
use ngxborg.Sshaccess.Sshd.{borg_port}
use ngxborg.Borgrepo.Place
use ngxborg.Webui.Http.{ClientInfo, client_info, Request, Handler, refuse, respond, with_ok}
use ngxborg.Webui.Session.{Session}
use ngxborg.Webui.Scope.{scope_tenant}

abbrev later : Option ℕ → Option ℕ → Option ℕ
later none here = here
later (some i) here = some (suc i)

-- Where a character stands last.
unfoldable pub last_index : ℕ → Text → Option ℕ
last_index c [] = none
last_index c (d ∷ s) = let rest = last_index c s in later rest (if d == c then some 0 else none)

-- Host and port with the colon at `i`, for a text that begins with "[".
abbrev bracketed : Text → ℕ → Option ℕ → Option Text
bracketed s i none = none
bracketed s i (some end) =
    if not (end + 1 == i)
    then none
    else if contains_char b'[' (drop 1 s) || contains_char b']' (drop (end + 1) s)
    then none
    else some (take (end - 1) (drop 1 s))

abbrev plain : Text → ℕ → Option Text
plain s i =
    if contains_char b':' (take i s) || contains_char b'[' s || contains_char b']' s
    then none
    else some (take i s)

abbrev split_at : Text → Option ℕ → Option Text
split_at s none = none
split_at [] (some i) = none
split_at (c ∷ s) (some i) =
    if c == b'[' then bracketed (c ∷ s) i (index (c ∷ s) (codes "]")) else plain (c ∷ s) i

-- The host of net.SplitHostPort(s), where it gives no error.
unfoldable pub split_host_port : Text → Option Text
split_host_port s = split_at s (last_index b':' s)

abbrev or_whole : Text → Option Text → Text
or_whole s none = s
or_whole s (some h) = h

unfoldable pub request_host : Request → Text
request_host r = or_whole r.host (split_host_port r.host)

-- The verb %q, on a text of printable characters.
unfoldable pub quoted_chars : Text → Text
quoted_chars [] = []
quoted_chars (c ∷ s) =
    let rest = quoted_chars s in if (c == b'"') || (c == b'\\') then b'\\' ∷ c ∷ rest else c ∷ rest

abbrev quote : Text → Text
quote s = b'"' ∷ (quoted_chars s ++ b'"' ∷ [])

abbrev port_or_default : Result ℤ → ℤ
port_or_default (ok p) = p
port_or_default (err e) = pos 2222

-- "ssh://%s@%s:%d%s"
unfoldable pub ssh_url : Text → Text → ℤ → Text → Text
ssh_url tenant host port path =
    codes "ssh://" ++ (tenant ++ (b'@' ∷ (host ++ (b':' ∷ (itoa port ++ path)))))

unfoldable pub info_for : Text → Text → Text → ℤ → ClientInfo
info_for tenant name host port =
    let path = Place.path tenant name in
    let url = ssh_url tenant host port path in
    let key_file = codes "~/.ssh/ngxborg_" ++ (tenant ++ (b'_' ∷ name)) in
    let rsh = codes "BORG_RSH=\"ssh -i " ++ key_file in
    record {
      tenant = tenant;
      name = name;
      path = path;
      host = host;
      borg_port = port;
      ssh_url = url;
      generate_key_command =
          codes "ssh-keygen -t ed25519 -N \"\" -C "
          ++ (quote (tenant ++ (b'@' ∷ name)) ++ (codes " -f " ++ key_file));
      show_public_key_command = codes "cat " ++ (key_file ++ codes ".pub");
      init_command = rsh ++ (codes "\" borg init --encryption=repokey-blake2 " ++ url);
      backup_command =
          rsh
          ++ (codes "\" borg create " ++ (url ++ codes "::'{hostname}-{now}' /path/to/back/up"));
      ngxsetup_repo = url;
    }

unfoldable pub handle_repo_client_info : Session → Request → Handler
handle_repo_client_info sess r = with_ok 403 (scope_tenant sess r.path_tenant) λ tenant w.
    if not (Place.exists w tenant r.path_name)
    then (w, refuse 404 (codes "no such repository"))
    else let found = borg_port w in
      (
        found.0,
        respond 200
            (client_info (info_for tenant r.path_name (request_host r) (port_or_default found.1))),
      )
