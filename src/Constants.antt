-- ===== src/Constants.antt =====
-- src/constants/httpStatus.js, src/constants/messages.js and src/constants/routes.js.
use potens_intern_backend_sh.Common.{ℕ, Text, codes}

-- The keys of `HTTP_STATUS`.
pub data HttpStatus : Type 0 where
  ok : HttpStatus
  created : HttpStatus
  no_content : HttpStatus
  bad_request : HttpStatus
  unauthorized : HttpStatus
  forbidden : HttpStatus
  not_found : HttpStatus
  unprocessable_entity : HttpStatus
  too_many_requests : HttpStatus
  internal_server_error : HttpStatus
  service_unavailable : HttpStatus

abbrev pub http_status : HttpStatus → ℕ
http_status ok = 200
http_status created = 201
http_status no_content = 204
http_status bad_request = 400
http_status unauthorized = 401
http_status forbidden = 403
http_status not_found = 404
http_status unprocessable_entity = 422
http_status too_many_requests = 429
http_status internal_server_error = 500
http_status service_unavailable = 503

-- The keys of `MESSAGES`.
pub data Message : Type 0 where
  ok : Message
  created : Message
  unauthorized : Message
  invalid_api_key : Message
  validation_error : Message
  not_found : Message
  log_entry_not_found : Message
  too_many_requests : Message
  internal_server_error : Message
  service_unavailable : Message

abbrev pub messages : Message → Text
messages ok = codes "Success"
messages created = codes "Resource created successfully"
messages unauthorized = codes "Unauthorized"
messages invalid_api_key = codes "Invalid API Key"
messages validation_error = codes "Validation Error"
messages not_found = codes "Not Found"
messages log_entry_not_found = codes "Log entry not found"
messages too_many_requests = codes "Too Many Requests"
messages internal_server_error = codes "Internal Server Error"
messages service_unavailable = codes "Service Unavailable"

-- The keys of `ROUTES`, and the paths.
pub data RoutePath : Type 0 where
  health : RoutePath
  api : RoutePath
  api_log : RoutePath
  api_logs : RoutePath
  api_verify : RoutePath
  api_export : RoutePath

abbrev pub routes : RoutePath → Text
routes health = codes "/health"
routes api = codes "/api"
routes api_log = codes "/api/log"
routes api_logs = codes "/api/logs"
routes api_verify = codes "/api/verify"
routes api_export = codes "/api/export"
