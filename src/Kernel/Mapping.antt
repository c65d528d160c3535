-- ===== src/Kernel/Mapping.antt =====
-- include/IpcStubs.hpp: SERVICE_MAPPING, the services that InitIPC makes, each a name and the class of
-- its object.
use nsemu.Common.{List, [], ◌∷◌}
use Prim.Native.String.{String}

abbrev pub service_mapping : List (String × String)
service_mapping =
    ("acc:su", "nn::account::IAccountServiceForAdministrator")
    ∷ ("acc:u0", "nn::account::IAccountServiceForApplication")
    ∷ ("acc:u1", "nn::account::IAccountServiceForSystemService")
    ∷ ("acc:aa", "nn::account::IBaasAccessTokenAccessor")
    ∷ ("ahid:cd", "nn::ahid::IServerSession")
    ∷ ("ahid:hdr", "nn::ahid::hdr::ISession")
    ∷ ("appletAE", "nn::am::service::IAllSystemAppletProxiesService")
    ∷ ("appletOE", "nn::am::service::IApplicationProxyService")
    ∷ ("aoc:u", "nn::aocsrv::detail::IAddOnContentManager")
    ∷ ("apm", "nn::apm::IManager")
    ∷ ("apm:p", "nn::apm::IManagerPrivileged")
    ∷ ("apm:sys", "nn::apm::ISystemManager")
    ∷ ("arp:r", "nn::arp::detail::IReader")
    ∷ ("arp:w", "nn::arp::detail::IWriter")
    ∷ ("audin:u", "nn::audio::detail::IAudioInManager")
    ∷ ("audin:a", "nn::audio::detail::IAudioInManagerForApplet")
    ∷ ("audin:d", "nn::audio::detail::IAudioInManagerForDebugger")
    ∷ ("audout:u", "nn::audio::detail::IAudioOutManager")
    ∷ ("audout:a", "nn::audio::detail::IAudioOutManagerForApplet")
    ∷ ("audout:d", "nn::audio::detail::IAudioOutManagerForDebugger")
    ∷ ("audren:u", "nn::audio::detail::IAudioRendererManager")
    ∷ ("audren:a", "nn::audio::detail::IAudioRendererManagerForApplet")
    ∷ ("audren:d", "nn::audio::detail::IAudioRendererManagerForDebugger")
    ∷ ("audrec:u", "nn::audio::detail::IFinalOutputRecorderManager")
    ∷ ("audrec:a", "nn::audio::detail::IFinalOutputRecorderManagerForApplet")
    ∷ ("audrec:d", "nn::audio::detail::IFinalOutputRecorderManagerForDebugger")
    ∷ ("audctl", "nn::audioctrl::detail::IAudioController")
    ∷ ("bcat:a", "nn::bcat::detail::ipc::IServiceCreator")
    ∷ ("bcat:m", "nn::bcat::detail::ipc::IServiceCreator")
    ∷ ("bcat:u", "nn::bcat::detail::ipc::IServiceCreator")
    ∷ ("bcat:s", "nn::bcat::detail::ipc::IServiceCreator")
    ∷ ("bgtc:sc", "nn::bgtc::IStateControlService")
    ∷ ("bgtc:t", "nn::bgtc::ITaskService")
    ∷ ("btdrv", "nn::bluetooth::IBluetoothDriver")
    ∷ ("bpc", "nn::bpc::IBoardPowerControlManager")
    ∷ ("bpc:r", "nn::bpc::IRtcManager")
    ∷ ("bsdcfg", "nn::bsdsocket::cfg::ServerInterface")
    ∷ ("btm", "nn::btm::IBtm")
    ∷ ("btm:dbg", "nn::btm::IBtmDebug")
    ∷ ("btm:sys", "nn::btm::IBtmSystem")
    ∷ ("caps:a", "nn::capsrv::sf::IAlbumAccessorService")
    ∷ ("caps:c", "nn::capsrv::sf::IAlbumControlService")
    ∷ ("caps:su", "nn::capsrv::sf::IScreenShotApplicationService")
    ∷ ("caps:sc", "nn::capsrv::sf::IScreenShotControlService")
    ∷ ("caps:ss", "nn::capsrv::sf::IScreenShotService")
    ∷ ("cec-mgr", "nn::cec::ICecManager")
    ∷ ("hwopus", "nn::codec::detail::IHardwareOpusDecoderManager")
    ∷ ("erpt:c", "nn::erpt::sf::IContext")
    ∷ ("erpt:r", "nn::erpt::sf::ISession")
    ∷ ("es", "nn::es::IETicketService")
    ∷ ("ethc:c", "nn::eth::sf::IEthInterface")
    ∷ ("ethc:i", "nn::eth::sf::IEthInterfaceGroup")
    ∷ ("eupld:c", "nn::eupld::sf::IControl")
    ∷ ("eupld:r", "nn::eupld::sf::IRequest")
    ∷ ("fan", "nn::fan::detail::IManager")
    ∷ ("fatal:p", "nn::fatalsrv::IPrivateService")
    ∷ ("fatal:u", "nn::fatalsrv::IService")
    ∷ ("fgm:0", "nn::fgm::sf::ISession")
    ∷ ("fgm", "nn::fgm::sf::ISession")
    ∷ ("fgm:9", "nn::fgm::sf::ISession")
    ∷ ("friend:v", "nn::friends::detail::ipc::IServiceCreator")
    ∷ ("friend:u", "nn::friends::detail::ipc::IServiceCreator")
    ∷ ("friend:m", "nn::friends::detail::ipc::IServiceCreator")
    ∷ ("friend:s", "nn::friends::detail::ipc::IServiceCreator")
    ∷ ("friend:a", "nn::friends::detail::ipc::IServiceCreator")
    ∷ ("fsp-srv", "nn::fssrv::sf::IFileSystemProxy")
    ∷ ("fsp-ldr", "nn::fssrv::sf::IFileSystemProxyForLoader")
    ∷ ("fsp-pr", "nn::fssrv::sf::IProgramRegistry")
    ∷ ("gpio", "nn::gpio::IManager")
    ∷ ("hid:dbg", "nn::hid::IHidDebugServer")
    ∷ ("hid", "nn::hid::IHidServer")
    ∷ ("hid:sys", "nn::hid::IHidSystemServer")
    ∷ ("hid:tmp", "nn::hid::IHidTemporaryServer")
    ∷ ("i2c:pcv", "nn::i2c::IManager")
    ∷ ("i2c", "nn::i2c::IManager")
    ∷ ("idle:sys", "nn::idle::detail::IPolicyManagerSystem")
    ∷ ("irs", "nn::irsensor::IIrSensorServer")
    ∷ ("irs:sys", "nn::irsensor::IIrSensorSystemServer")
    ∷ ("lbl", "nn::lbl::detail::ILblController")
    ∷ ("ldn:m", "nn::ldn::detail::IMonitorServiceCreator")
    ∷ ("ldn:s", "nn::ldn::detail::ISystemServiceCreator")
    ∷ ("ldn:u", "nn::ldn::detail::IUserServiceCreator")
    ∷ ("ldr:shel", "nn::ldr::detail::IShellInterface")
    ∷ ("lm", "nn::lm::ILogService")
    ∷ ("lr", "nn::lr::ILocationResolverManager")
    ∷ ("mii:e", "nn::mii::detail::IStaticService")
    ∷ ("mii:u", "nn::mii::detail::IStaticService")
    ∷ ("mm:u", "nn::mmnv::IRequest")
    ∷ ("ncm", "nn::ncm::IContentManager")
    ∷ ("news:a", "nn::news::detail::ipc::IServiceCreator")
    ∷ ("news:c", "nn::news::detail::ipc::IServiceCreator")
    ∷ ("news:m", "nn::news::detail::ipc::IServiceCreator")
    ∷ ("news:p", "nn::news::detail::ipc::IServiceCreator")
    ∷ ("news:v", "nn::news::detail::ipc::IServiceCreator")
    ∷ ("nfc:am", "nn::nfc::am::detail::IAmManager")
    ∷ ("nfc:sys", "nn::nfc::detail::ISystemManager")
    ∷ ("nfc:user", "nn::nfc::detail::IUserManager")
    ∷ ("nfc:mf:u", "nn::nfc::mifare::detail::IUserManager")
    ∷ ("nfp:dbg", "nn::nfp::detail::IDebugManager")
    ∷ ("nfp:sys", "nn::nfp::detail::ISystemManager")
    ∷ ("nfp:user", "nn::nfp::detail::IUserManager")
    ∷ ("nifm:a", "nn::nifm::detail::IStaticService")
    ∷ ("nifm:s", "nn::nifm::detail::IStaticService")
    ∷ ("nifm:u", "nn::nifm::detail::IStaticService")
    ∷ ("nim", "nn::nim::detail::INetworkInstallManager")
    ∷ ("nim:shp", "nn::nim::detail::IShopServiceManager")
    ∷ ("npns:s", "nn::npns::INpnsSystem")
    ∷ ("npns:u", "nn::npns::INpnsUser")
    ∷ ("ns:dev", "nn::ns::detail::IDevelopInterface")
    ∷ ("ns:rid", "nn::ns::detail::IServiceGetterInterface")
    ∷ ("ns:web", "nn::ns::detail::IServiceGetterInterface")
    ∷ ("ns:ec", "nn::ns::detail::IServiceGetterInterface")
    ∷ ("ns:am2", "nn::ns::detail::IServiceGetterInterface")
    ∷ ("ns:rt", "nn::ns::detail::IServiceGetterInterface")
    ∷ ("ns:su", "nn::ns::detail::ISystemUpdateInterface")
    ∷ ("ns:vm", "nn::ns::detail::IVulnerabilityManagerInterface")
    ∷ ("nsd:a", "nn::nsd::detail::IManager")
    ∷ ("nsd:u", "nn::nsd::detail::IManager")
    ∷ ("ntc", "nn::ntc::detail::service::IStaticService")
    ∷ ("omm", "nn::omm::detail::IOperationModeManager")
    ∷ ("ovln:rcv", "nn::ovln::IReceiverService")
    ∷ ("ovln:snd", "nn::ovln::ISenderService")
    ∷ ("pcie", "nn::pcie::detail::IManager")
    ∷ ("pctl:s", "nn::pctl::detail::ipc::IParentalControlServiceFactory")
    ∷ ("pctl:r", "nn::pctl::detail::ipc::IParentalControlServiceFactory")
    ∷ ("pctl:a", "nn::pctl::detail::ipc::IParentalControlServiceFactory")
    ∷ ("pctl", "nn::pctl::detail::ipc::IParentalControlServiceFactory")
    ∷ ("pcv:arb", "nn::pcv::IArbitrationManager")
    ∷ ("pcv:imm", "nn::pcv::IImmediateManager")
    ∷ ("pcv", "nn::pcv::detail::IPcvService")
    ∷ ("pdm:ntfy", "nn::pdm::detail::INotifyService")
    ∷ ("pdm:qry", "nn::pdm::detail::IQueryService")
    ∷ ("pinmux", "nn::pinmux::IManager")
    ∷ ("pl:u", "nn::pl::detail::ISharedFontManager")
    ∷ ("pm:bm", "nn::pm::detail::IBootModeInterface")
    ∷ ("pm:info", "nn::pm::detail::IInformationInterface")
    ∷ ("pm:shell", "nn::pm::detail::IShellInterface")
    ∷ ("prepo:a", "nn::prepo::detail::ipc::IPrepoService")
    ∷ ("prepo:m", "nn::prepo::detail::ipc::IPrepoService")
    ∷ ("prepo:u", "nn::prepo::detail::ipc::IPrepoService")
    ∷ ("prepo:s", "nn::prepo::detail::ipc::IPrepoService")
    ∷ ("psc:c", "nn::psc::sf::IPmControl")
    ∷ ("psc:m", "nn::psc::sf::IPmService")
    ∷ ("psm", "nn::psm::IPsmServer")
    ∷ ("pwm", "nn::pwm::IManager")
    ∷ ("ro:dmnt", "nn::ro::detail::IDebugMonitorInterface")
    ∷ ("ldr:ro", "nn::ro::detail::IRoInterface")
    ∷ ("sasbus", "nn::sasbus::IManager")
    ∷ ("set:cal", "nn::settings::IFactorySettingsServer")
    ∷ ("set:fd", "nn::settings::IFirmwareDebugSettingsServer")
    ∷ ("set", "nn::settings::ISettingsServer")
    ∷ ("set:sys", "nn::settings::ISystemSettingsServer")
    ∷ ("sm:m", "nn::sm::detail::IManagerInterface")
    ∷ ("sm:", "nn::sm::detail::IUserInterface")
    ∷ ("sfdnsres", "nn::socket::resolver::IResolver")
    ∷ ("bsd:u", "nn::socket::sf::IClient")
    ∷ ("bsd:s", "nn::socket::sf::IClient")
    ∷ ("spl:", "nn::spl::detail::IGeneralInterface")
    ∷ ("csrng", "nn::spl::detail::IRandomInterface")
    ∷ ("spsm", "nn::spsm::detail::IPowerStateInterface")
    ∷ ("ssl", "nn::ssl::sf::ISslService")
    ∷ ("tc", "nn::tc::IManager")
    ∷ ("time:s", "nn::timesrv::detail::service::IStaticService")
    ∷ ("time:u", "nn::timesrv::detail::service::IStaticService")
    ∷ ("time:r", "nn::timesrv::detail::service::IStaticService")
    ∷ ("time:a", "nn::timesrv::detail::service::IStaticService")
    ∷ ("ts", "nn::ts::server::IMeasurementServer")
    ∷ ("uart", "nn::uart::IManager")
    ∷ ("usb:ds", "nn::usb::ds::IDsService")
    ∷ ("usb:hs", "nn::usb::hs::IClientRootSession")
    ∷ ("usb:pd:c", "nn::usb::pd::detail::IPdCradleManager")
    ∷ ("usb:pd", "nn::usb::pd::detail::IPdManager")
    ∷ ("usb:pm", "nn::usb::pm::IPmService")
    ∷ ("vi:u", "nn::visrv::sf::IApplicationRootService")
    ∷ ("vi:m", "nn::visrv::sf::IManagerRootService")
    ∷ ("vi:s", "nn::visrv::sf::ISystemRootService")
    ∷ ("wlan:inf", "nn::wlan::detail::IInfraManager")
    ∷ ("wlan:lga", "nn::wlan::detail::ILocalGetActionFrame")
    ∷ ("wlan:lg", "nn::wlan::detail::ILocalGetFrame")
    ∷ ("wlan:lcl", "nn::wlan::detail::ILocalManager")
    ∷ ("wlan:sg", "nn::wlan::detail::ISocketGetFrame")
    ∷ ("wlan:soc", "nn::wlan::detail::ISocketManager")
    ∷ ("xcd:sys", "nn::xcd::detail::ISystemServer")
    ∷ ("dispdrv", "nns::hosbinder::IHOSBinderDriver")
    ∷ ("nvdrvdbg", "nns::nvdrv::INvDrvDebugFSServices")
    ∷ ("nvdrv:s", "nns::nvdrv::INvDrvServices")
    ∷ ("nvdrv:t", "nns::nvdrv::INvDrvServices")
    ∷ ("nvdrv:a", "nns::nvdrv::INvDrvServices")
    ∷ ("nvdrv", "nns::nvdrv::INvDrvServices")
    ∷ ("nvgem:c", "nv::gemcontrol::INvGemControl")
    ∷ ("nvgem:cd", "nv::gemcoredump::INvGemCoreDump")
    ∷ []
