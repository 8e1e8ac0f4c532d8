-- ===== src/Adapters.antt =====
-- app/adapters: reading the pages of a job board. What a board answers is an argument: a page, or an
-- exception. The parsed pages stand for their HTML or JSON.
pub mod Workday
pub mod Findly
pub mod TalentBrew
pub mod Infor
