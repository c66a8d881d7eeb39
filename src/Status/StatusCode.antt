-- ===== src/Status/StatusCode.antt =====
-- The codes of include/telling/util/HttpStatusCodes_C++11.h that the modelled parts name.
use telling.Prelude.{ℕ}

abbrev pub ok : ℕ
ok = 200

abbrev pub created : ℕ
created = 201

abbrev pub bad_request : ℕ
bad_request = 400

abbrev pub not_found : ℕ
not_found = 404

abbrev pub conflict : ℕ
conflict = 409

abbrev pub gone : ℕ
gone = 410

abbrev pub request_header_fields_too_large : ℕ
request_header_fields_too_large = 431

abbrev pub internal_server_error : ℕ
internal_server_error = 500

abbrev pub bad_gateway : ℕ
bad_gateway = 502

abbrev pub service_unavailable : ℕ
service_unavailable = 503

abbrev pub http_version_not_supported : ℕ
http_version_not_supported = 505
