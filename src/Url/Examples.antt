-- ===== src/Url/Examples.antt =====
-- URLs that the constructor is tried on.
use s4_lib_lite.Prelude.{◌≡◌, refl, ◌∷◌, some, codes}
use s4_lib_lite.Prelude.Atoi.{atoi_digits}
use s4_lib_lite.Strings.Find.{is_in}
use s4_lib_lite.Strings.Edit.{string_to_lower}
use s4_lib_lite.Url.Parse.{http_url}
use s4_lib_lite.Url.Spelling.{https, name_of, Parts, host, spell_url, IsUrl}
use s4_lib_lite.Url.Parts.{meant_port, http_url-spell_url}

header_url : http_url (codes "https://Mail.google.com:80/mail/?action=send#action=send") ≡ record {
  protocol = codes "https";
  domain = codes "mail.google.com";
  port = 80;
  path = codes "/mail/";
  query = codes "action=send";
}
unfolding http_url
header_url = refl

-- Blanks around it, no path, and no port.
short_url : http_url (codes " ftp://host ") ≡ record {
  protocol = codes "ftp";
  domain = codes "host";
  port = 80;
  path = codes "/";
  query = codes "";
}
unfolding http_url
short_url = refl

-- A query without a path belongs to the domain.
lost_query : http_url (codes "http://host?a=b") ≡ record {
  protocol = codes "http";
  domain = codes "host?a=b";
  port = 80;
  path = codes "/";
  query = codes "";
}
unfolding http_url
lost_query = refl

abbrev mail_url : Parts
mail_url = record {
  scheme = https;
  host_head = b'M';
  host_tail = codes "ail";
  port_digits = some (codes "8080");
  path = codes "in";
  query = codes "a=b";
  fragment = codes "end";
}

mail_url-IsUrl : IsUrl mail_url
unfolding is_in atoi_digits
mail_url-IsUrl = record {
  host_no_slash = refl;
  host_no_colon = refl;
  port_number = refl;
  path_no_mark = refl;
  path_no_hash = refl;
  query_no_hash = refl;
  ends_unblank = refl;
}

http_url-spell_url_example : http_url (spell_url mail_url) ≡ record {
  protocol = name_of https;
  domain = string_to_lower (host mail_url);
  port = meant_port https (some (codes "8080"));
  path = b'/' ∷ codes "in";
  query = codes "a=b";
}
http_url-spell_url_example = http_url-spell_url mail_url mail_url-IsUrl
