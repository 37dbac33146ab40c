-- ===== src/Access/Tests.antt =====
-- Requests with and without credentials, and the theorems about them.
use leadpulse.Prelude.{true, false, refl, none, some, [], ◌∷◌}
use leadpulse.Prelude.Text.{text, text_eq, starts_with}
use leadpulse.Billing.{Organization, trialing}
use leadpulse.Access.{
  Identity, Claims, AccessSettings, Headers, Outside, bearer, authenticate_request, multi_tenant,
  of_bearer, of_user,
}
use leadpulse.Access.Credentials.{Shows, authenticate_request-Shows}

abbrev acme : Organization
acme = record {
  id = 1;
  slug = text "acme";
  widget_key = some (text "wk");
  is_active = true;
  billing_status = trialing;
  customer_id = none;
  last_payment_at = none;
  next_payment_due_at = none;
}

abbrev claims : Claims
claims = record {
  type = some (text "access");
  sub = some (text "7");
  role = some (text "admin");
  org_id = some (text "1");
}

abbrev outside : Outside
outside = record {
  decode_token = λ t. some claims;
  verify_demo_token = λ t s. false;
  parse_uuid = λ t. some 1;
  users = λ u. some (record { is_active = true });
  organizations = acme ∷ [];
}

abbrev settings : AccessSettings
settings = record { auth_enabled = true; api_key = text "secret" }

abbrev from_widget : Headers
from_widget = record {
  api_key = none;
  demo_token = none;
  widget_key = some (text "wk");
  authorization = none;
  session_id = none;
}

abbrev from_dashboard : Headers
from_dashboard = record from_widget { widget_key = none; authorization = some (text "Bearer t") }

abbrev admin : Identity
admin = record { user_id = some 1; role = text "admin"; organization = some 1 }

authenticate_request-Shows_example : Shows outside settings from_dashboard admin
unfolding authenticate_request multi_tenant bearer of_bearer of_user text_eq starts_with
authenticate_request-Shows_example =
    authenticate_request-Shows outside settings from_dashboard admin refl refl
