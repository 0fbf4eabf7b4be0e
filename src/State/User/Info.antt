-- ===== src/State/User/Info.antt =====
-- What a user of state/user.go tells of himself. A string is its bytes.
use go_icq.Prelude.{ℕ, Bool, false, List, []}

pub record Category : Type 0 where
  pub id : ℕ
  pub name : List ℕ

pub record Keyword : Type 0 where
  pub id : ℕ
  pub name : List ℕ

pub record AimNameAndAddr : Type 0 where
  pub first_name : List ℕ
  pub last_name : List ℕ
  pub middle_name : List ℕ
  pub maiden_name : List ℕ
  pub country : List ℕ
  pub state : List ℕ
  pub city : List ℕ
  pub nick_name : List ℕ
  pub zip_code : List ℕ
  pub address : List ℕ

abbrev pub no_aim_name_and_addr : AimNameAndAddr
no_aim_name_and_addr = record {
  first_name = [];
  last_name = [];
  middle_name = [];
  maiden_name = [];
  country = [];
  state = [];
  city = [];
  nick_name = [];
  zip_code = [];
  address = [];
}

pub record IcqAffiliations : Type 0 where
  pub past_code_1 : ℕ
  pub past_keyword_1 : List ℕ
  pub past_code_2 : ℕ
  pub past_keyword_2 : List ℕ
  pub past_code_3 : ℕ
  pub past_keyword_3 : List ℕ
  pub current_code_1 : ℕ
  pub current_keyword_1 : List ℕ
  pub current_code_2 : ℕ
  pub current_keyword_2 : List ℕ
  pub current_code_3 : ℕ
  pub current_keyword_3 : List ℕ

abbrev pub no_icq_affiliations : IcqAffiliations
no_icq_affiliations = record {
  past_code_1 = 0;
  past_keyword_1 = [];
  past_code_2 = 0;
  past_keyword_2 = [];
  past_code_3 = 0;
  past_keyword_3 = [];
  current_code_1 = 0;
  current_keyword_1 = [];
  current_code_2 = 0;
  current_keyword_2 = [];
  current_code_3 = 0;
  current_keyword_3 = [];
}

pub record IcqInterests : Type 0 where
  pub code_1 : ℕ
  pub keyword_1 : List ℕ
  pub code_2 : ℕ
  pub keyword_2 : List ℕ
  pub code_3 : ℕ
  pub keyword_3 : List ℕ
  pub code_4 : ℕ
  pub keyword_4 : List ℕ

abbrev pub no_icq_interests : IcqInterests
no_icq_interests = record {
  code_1 = 0;
  keyword_1 = [];
  code_2 = 0;
  keyword_2 = [];
  code_3 = 0;
  keyword_3 = [];
  code_4 = 0;
  keyword_4 = [];
}

pub record IcqBasicInfo : Type 0 where
  pub address : List ℕ
  pub cell_phone : List ℕ
  pub city : List ℕ
  pub country_code : ℕ
  pub email_address : List ℕ
  pub fax : List ℕ
  pub first_name : List ℕ
  pub gmt_offset : ℕ
  pub last_name : List ℕ
  pub nickname : List ℕ
  pub phone : List ℕ
  pub publish_email : Bool
  pub state : List ℕ
  pub zip_code : List ℕ

abbrev pub no_icq_basic_info : IcqBasicInfo
no_icq_basic_info = record {
  address = [];
  cell_phone = [];
  city = [];
  country_code = 0;
  email_address = [];
  fax = [];
  first_name = [];
  gmt_offset = 0;
  last_name = [];
  nickname = [];
  phone = [];
  publish_email = false;
  state = [];
  zip_code = [];
}

pub record IcqWorkInfo : Type 0 where
  pub address : List ℕ
  pub city : List ℕ
  pub company : List ℕ
  pub country_code : ℕ
  pub department : List ℕ
  pub fax : List ℕ
  pub occupation_code : ℕ
  pub phone : List ℕ
  pub position : List ℕ
  pub state : List ℕ
  pub web_page : List ℕ
  pub zip_code : List ℕ

abbrev pub no_icq_work_info : IcqWorkInfo
no_icq_work_info = record {
  address = [];
  city = [];
  company = [];
  country_code = 0;
  department = [];
  fax = [];
  occupation_code = 0;
  phone = [];
  position = [];
  state = [];
  web_page = [];
  zip_code = [];
}

pub record IcqMoreInfo : Type 0 where
  pub gender : ℕ
  pub home_page_addr : List ℕ
  pub birth_year : ℕ
  pub birth_month : ℕ
  pub birth_day : ℕ
  pub lang_1 : ℕ
  pub lang_2 : ℕ
  pub lang_3 : ℕ

abbrev pub no_icq_more_info : IcqMoreInfo
no_icq_more_info = record {
  gender = 0;
  home_page_addr = [];
  birth_year = 0;
  birth_month = 0;
  birth_day = 0;
  lang_1 = 0;
  lang_2 = 0;
  lang_3 = 0;
}
